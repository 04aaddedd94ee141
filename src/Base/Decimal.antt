-- ===== src/Base/Decimal.antt =====
-- Rust's decimal text of a `u64`, its `parse::<u64>`, and `str::split_once`.
use Prim.Native.Char.{Char, code}
use Prim.Native.Nat.{ℕ, zero, suc, ◌+◌, ◌-◌, ◌*◌, ◌/◌, ◌%◌, ◌≤◌, ◌<◌}
use Prim.Native.String.{String, ◌++◌}
use mathlib.Core.Path.{◌≡◌, refl, ap, ◌∙◌}
use mathlib.Core.Bool.{◌&&◌}
use mathlib.Core.Option.{Option, none, some}
use native.Mathlib.Omega.{arith}
use text.Mathlib.TextLemmas.{nil-append, cons-append}
use slopd.Base.Tests.{ltb, leb, nat_eq, max_u64, if◌then◌else◌}
use slopd.Base.Text.{rsplit_once}

digit : ℕ → Char
digit zero = "0"
digit (suc zero) = "1"
digit (suc (suc zero)) = "2"
digit (suc (suc (suc zero))) = "3"
digit (suc (suc (suc (suc zero)))) = "4"
digit (suc (suc (suc (suc (suc zero))))) = "5"
digit (suc (suc (suc (suc (suc (suc zero)))))) = "6"
digit (suc (suc (suc (suc (suc (suc (suc zero))))))) = "7"
digit (suc (suc (suc (suc (suc (suc (suc (suc zero)))))))) = "8"
digit _ = "9"

code-digit : (n : ℕ) → n < 10 → code (digit n) ≡ 48 + n
unfolding digit
code-digit zero h = refl
code-digit (suc zero) h = refl
code-digit (suc (suc zero)) h = refl
code-digit (suc (suc (suc zero))) h = refl
code-digit (suc (suc (suc (suc zero)))) h = refl
code-digit (suc (suc (suc (suc (suc zero))))) h = refl
code-digit (suc (suc (suc (suc (suc (suc zero)))))) h = refl
code-digit (suc (suc (suc (suc (suc (suc (suc zero))))))) h = refl
code-digit (suc (suc (suc (suc (suc (suc (suc (suc zero)))))))) h = refl
code-digit (suc (suc (suc (suc (suc (suc (suc (suc (suc zero))))))))) h = refl
code-digit (suc (suc (suc (suc (suc (suc (suc (suc (suc (suc n)))))))))) h = absurd (omega arith)

-- The digits of `n` in front of `out`; the fuel is one for each digit.
emit : ℕ → ℕ → String → String
emit zero n out = String.◌∷◌ (digit (n % 10)) out
emit (suc fuel) n out =
    let rest = emit fuel (n / 10) (String.◌∷◌ (digit (n % 10)) out) in
    if ltb n 10 then String.◌∷◌ (digit (n % 10)) out else rest

-- `n.to_string()`
unfoldable pub to_string : ℕ → String
unfolding emit digit
to_string n = emit n n String.[]

scan : ℕ → String → Option ℕ
scan n String.[] = some n
scan n (String.◌∷◌ c s) =
    let value = n * 10 + (code c - 48) in
    let rest = scan value s in
    if leb 48 (code c) && leb (code c) 57 then if ltb max_u64 value then none else rest else none

signed : String → Option ℕ
signed String.[] = none
signed (String.◌∷◌ c s) = scan 0 (String.◌∷◌ c s)

-- `s.parse::<u64>()`: a sign `+`, then digits, and no overflow.
unfoldable pub parse_u64 : String → Option ℕ
unfolding scan signed
parse_u64 String.[] = none
parse_u64 (String.◌∷◌ c s) = if nat_eq (code c) b'+' then signed s else scan 0 (String.◌∷◌ c s)

abbrev with_char : Char → Option (String × String) → Option (String × String)
with_char d none = none
with_char d (some (a, b)) = some (String.◌∷◌ d a, b)

-- `s.split_once(c)`, `c` given by its code.
unfoldable pub split_once : ℕ → String → Option (String × String)
split_once c String.[] = none
split_once c (String.◌∷◌ d s) =
    let rest = split_once c s in if nat_eq (code d) c then some (String.[], s) else with_char d rest

scan-emit :
    (fuel n : ℕ) (out : String) → n ≤ fuel → n ≤ max_u64 → scan 0 (emit fuel n out) ≡ scan n out
unfolding scan emit
scan-emit zero n out h k = ground (arith, code-digit (n % 10))
scan-emit (suc fuel) n out h k =
    ground (arith, code-digit (n % 10), scan-emit fuel (n / 10) (String.◌∷◌ (digit (n % 10)) out))

parse-emit : (fuel n : ℕ) (out : String) → parse_u64 (emit fuel n out) ≡ scan 0 (emit fuel n out)
unfolding parse_u64 emit
parse-emit zero n out = ground (arith, code-digit (n % 10))
parse-emit (suc fuel) n out =
    ground (arith, code-digit (n % 10), parse-emit fuel (n / 10) (String.◌∷◌ (digit (n % 10)) out))

-- A number in range is parsed back from its text.
pub parse_u64-to_string : (n : ℕ) → n ≤ max_u64 → parse_u64 (to_string n) ≡ some n
unfolding to_string scan
parse_u64-to_string n h = parse-emit n n String.[] ∙ scan-emit n n String.[] (omega arith) h

emit-append : (fuel n : ℕ) (out t : String) → emit fuel n out ++ t ≡ emit fuel n (out ++ t)
unfolding emit
emit-append zero n out t = cons-append _ _ _
emit-append (suc fuel) n out t = ground (
  arith,
  cons-append (digit (n % 10)) out t,
  emit-append fuel (n / 10) (String.◌∷◌ (digit (n % 10)) out) t,
)

split_once-emit :
    (c fuel n : ℕ) (out a b : String)
    → 57 < c
    → split_once c out ≡ some (a, b)
    → split_once c (emit fuel n out) ≡ some (emit fuel n a, b)
unfolding split_once emit
split_once-emit c zero n out a b h e = ground (arith, code-digit (n % 10))
split_once-emit c (suc fuel) n out a b h e = ground (
  arith,
  code-digit (n % 10),
  split_once-emit c fuel (n / 10) (String.◌∷◌ (digit (n % 10)) out) (String.◌∷◌ (digit (n % 10)) a)
      b,
)

-- A number's text ends at the first separator behind it.
pub split_once-to_string :
    (n : ℕ) (c : Char) (rest : String)
    → 57 < code c
    → split_once (code c) (to_string n ++ String.◌∷◌ c rest) ≡ some (to_string n, rest)
unfolding to_string split_once
split_once-to_string n c rest h =
    ap (split_once (code c)) (emit-append n n String.[] (String.◌∷◌ c rest))
    ∙ split_once-emit (code c) n n (String.[] ++ String.◌∷◌ c rest) String.[] rest h
        (ap (split_once (code c)) (nil-append (String.◌∷◌ c rest)) ∙ ground arith)

rsplit_once-emit :
    (c fuel n : ℕ) (out : String)
    → c < 48
    → rsplit_once c out ≡ none
    → rsplit_once c (emit fuel n out) ≡ none
unfolding rsplit_once emit
rsplit_once-emit c zero n out h e = ground (arith, code-digit (n % 10))
rsplit_once-emit c (suc fuel) n out h e =
    ground (
      arith,
      code-digit (n % 10),
      rsplit_once-emit c fuel (n / 10) (String.◌∷◌ (digit (n % 10)) out),
    )

-- A number's text has no separator.
pub rsplit_once-to_string : (c n : ℕ) → c < 48 → rsplit_once c (to_string n) ≡ none
unfolding to_string rsplit_once
rsplit_once-to_string c n h = rsplit_once-emit c n n String.[] h refl
