-- ===== src/Acp/Scan.antt =====
-- slopd-acp/src/adapter.rs: the tool calls that a script of Codex holds.
use Prim.Native.Char.{Char, code}
use slopd.Base.{
  ℕ, zero, suc, ◌+◌, String, Bool, true, false, not, ◌&&◌, ◌||◌, Option, none, some, List, [], ◌∷◌,
  ◌++◌, unwrap_or, map_option, strip_prefix, nat_eq, leb, if◌then◌else◌,
}
use slopd.Base.Suffix.{is_whitespace}
use slopd.Json.Value.{Value, string, object, no_fields, field}

-- `str::trim_start`, `str::trim_end` and `str::trim`.
unfoldable pub trim_start : String → String
unfolding is_whitespace
trim_start String.[] = String.[]
trim_start (String.◌∷◌ c s) =
    let rest = trim_start s in if is_whitespace (code c) then rest else String.◌∷◌ c s

abbrev unless_blank : Char → String → String
unless_blank c String.[] = if is_whitespace (code c) then String.[] else String.◌∷◌ c String.[]
unless_blank c (String.◌∷◌ d s) = String.◌∷◌ c (String.◌∷◌ d s)

unfoldable pub trim_end : String → String
unfolding is_whitespace
trim_end String.[] = String.[]
trim_end (String.◌∷◌ c s) = unless_blank c (trim_end s)

unfoldable pub trim : String → String
unfolding trim_start trim_end
trim s = trim_end (trim_start s)

-- The loop of `first_js_argument` has the open brackets, the quote that it is in, and whether the last
-- character escapes the next.
pub record Scanner : Type 0 where
  pub stack : List ℕ
  pub quote : Option ℕ
  pub escaped : Bool

abbrev pub start_scanner : Scanner
start_scanner = record { stack = []; quote = none; escaped = false }

abbrev is_empty : List ℕ → Bool
is_empty [] = true
is_empty (x ∷ xs) = false

abbrev in_quote : ℕ → ℕ → Scanner → Scanner
in_quote mark byte k =
    if k.escaped
    then record k { escaped = false }
    else if nat_eq byte b'\\'
    then record k { escaped = true }
    else if nat_eq byte mark
    then record k { quote = none }
    else k

abbrev popped : List ℕ → List ℕ
popped [] = []
popped (x ∷ xs) = xs

abbrev is_top : ℕ → List ℕ → Bool
is_top byte [] = false
is_top byte (x ∷ xs) = nat_eq x byte

-- A closing bracket takes the top of the stack away, whatever it is.
abbrev outside : ℕ → Scanner → Scanner
outside byte k =
    if nat_eq byte b'"' || nat_eq byte b'\'' || nat_eq byte b'`'
    then record k { quote = some byte }
    else if nat_eq byte b'{' || nat_eq byte b'['
    then record k { stack = byte ∷ k.stack }
    else if nat_eq byte b'}' || nat_eq byte b']'
    then record k { stack = popped k.stack }
    else k

abbrev pub scan_byte : ℕ → Scanner → Scanner
scan_byte byte k = elim k.quote [ none ↦ outside byte k | some mark ↦ in_quote mark byte k ]

-- Whether the argument ends with this byte.
abbrev ends_quote : ℕ → ℕ → Scanner → Bool
ends_quote mark byte k =
    not k.escaped && not (nat_eq byte b'\\') && nat_eq byte mark && is_empty k.stack

abbrev ends_bracket : ℕ → Scanner → Bool
ends_bracket byte k =
    (nat_eq byte b'}' && is_top b'{' k.stack || nat_eq byte b']' && is_top b'[' k.stack)
    && is_empty (popped k.stack)

abbrev pub ends_argument : ℕ → Scanner → Bool
ends_argument byte k = elim k.quote [
  | none ↦ ends_bracket byte k
  | some mark ↦ ends_quote mark byte k
]

unfoldable pub scan_argument : Scanner → String → Option String
scan_argument k String.[] = none
scan_argument k (String.◌∷◌ c s) =
    let rest = scan_argument (scan_byte (code c) k) s in
    if ends_argument (code c) k
    then some (String.◌∷◌ c String.[])
    else map_option (String.◌∷◌ c) rest

-- The text before the first comma or closing parenthesis, or all of it.
unfoldable pub plain_argument : String → String
plain_argument String.[] = String.[]
plain_argument (String.◌∷◌ c s) =
    let rest = plain_argument s in
    if nat_eq (code c) b',' || nat_eq (code c) b')' then String.[] else String.◌∷◌ c rest

abbrev is_opening : ℕ → Bool
is_opening byte =
    nat_eq byte b'{'
    || nat_eq byte b'['
    || nat_eq byte b'"'
    || nat_eq byte b'\''
    || nat_eq byte b'`'

abbrev argument_of : String → Option String
argument_of String.[] = none
argument_of (String.◌∷◌ c s) =
    if is_opening (code c)
    then scan_argument start_scanner (String.◌∷◌ c s)
    else some (plain_argument (String.◌∷◌ c s))

unfoldable pub first_js_argument : String → Option String
unfolding trim_start scan_argument plain_argument
first_js_argument input = argument_of (trim_start input)

abbrev is_name_byte : ℕ → Bool
is_name_byte b =
    leb b'0' b && leb b b'9'
    || leb b'a' b && leb b b'z'
    || leb b'A' b && leb b b'Z'
    || nat_eq b b'_'

-- The longest name at the start, and what follows it.
unfoldable pub span_name : String → String × String
span_name String.[] = (String.[], String.[])
span_name (String.◌∷◌ c s) =
    let rest = span_name s in
    if is_name_byte (code c) then (String.◌∷◌ c rest.0, rest.1) else (String.[], String.◌∷◌ c s)

unfoldable pub size : String → ℕ
size String.[] = 0
size (String.◌∷◌ c s) = suc (size s)

-- The answer of `json5::from_str`, an error being none.
abbrev pub Json5 : Type 0
Json5 = String → Option Value

abbrev pub input_object : Value → Value
input_object v = object (field "input" v no_fields)

abbrev pub call_with : Json5 → String → String → List (String × Value)
call_with jsonish_value name arguments =
    let argument = trim (unwrap_or (first_js_argument arguments) arguments) in
    (name, unwrap_or (jsonish_value argument) (input_object (string argument))) ∷ []

-- The call behind a `tools.`, if there is one.
abbrev call_of : Json5 → String × String → List (String × Value)
call_of jsonish_value (String.[], rest) = []
call_of jsonish_value (String.◌∷◌ c name, rest) = elim (strip_prefix "(" (trim_start rest)) [
  | none ↦ []
  | some arguments ↦ call_with jsonish_value (String.◌∷◌ c name) arguments
]

-- The loop of `embedded_tool_calls` by characters; `skip` characters are behind `offset`.
unfoldable pub calls_from : Json5 → (skip : ℕ) → String → List (String × Value)
unfolding strip_prefix span_name size trim_start trim first_js_argument
calls_from jsonish_value skip String.[] = []
calls_from jsonish_value (suc skip) (String.◌∷◌ c s) = calls_from jsonish_value skip s
calls_from jsonish_value zero (String.◌∷◌ c s) = elim (strip_prefix "tools." (String.◌∷◌ c s)) [
  | none ↦ calls_from jsonish_value zero s
  | some rest ↦
      call_of jsonish_value (span_name rest)
      ++ calls_from jsonish_value (5 + size (span_name rest).0) s
]

unfoldable pub embedded_tool_calls : Json5 → String → List (String × Value)
unfolding calls_from
embedded_tool_calls jsonish_value input = calls_from jsonish_value 0 input
