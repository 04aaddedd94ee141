-- ===== src/Base/Text.antt =====
-- The order of Rust's `str`, and the tests on its prefixes. A text is compared by its code points,
-- which is the order of its UTF-8 bytes.
use Prim.Native.Char.{Char, code}
use Prim.Native.Nat.{ℕ, zero, suc, ◌-◌}
use Prim.Native.String.{String, ◌++◌ as join}
use mathlib.Core.Path.{◌≡◌, refl, ap, ◌∙◌, ap₂}
use mathlib.Core.Bool.{Bool, true, false, ◌&&◌}
use mathlib.Core.Option.{Option, none, some}
use native.Mathlib.Omega.{arith}
use text.Mathlib.TextEquality.{Char-path}
use text.Mathlib.TextLemmas.{nil-append, cons-append}
use slopd.Base.Tests.{ltb, leb, nat_eq, if◌then◌else◌}

unfoldable pub str_lt : String → String → Bool
str_lt String.[] String.[] = false
str_lt String.[] (String.◌∷◌ d t) = true
str_lt (String.◌∷◌ c s) String.[] = false
str_lt (String.◌∷◌ c s) (String.◌∷◌ d t) =
    let rest = str_lt s t in
    if ltb (code c) (code d) then true else if ltb (code d) (code c) then false else rest

pub str_lt_irrefl : (s : String) → str_lt s s ≡ false
unfolding str_lt
str_lt_irrefl String.[] = refl
str_lt_irrefl (String.◌∷◌ c s) = ground (arith, str_lt_irrefl s)

pub str_lt_trans : (s t u : String) → str_lt s t ≡ true → str_lt t u ≡ true → str_lt s u ≡ true
unfolding str_lt
str_lt_trans String.[] String.[] u h k = cc
str_lt_trans String.[] (String.◌∷◌ d t) String.[] h k = cc
str_lt_trans String.[] (String.◌∷◌ d t) (String.◌∷◌ e u) h k = refl
str_lt_trans (String.◌∷◌ c s) String.[] u h k = cc
str_lt_trans (String.◌∷◌ c s) (String.◌∷◌ d t) String.[] h k = cc
str_lt_trans (String.◌∷◌ c s) (String.◌∷◌ d t) (String.◌∷◌ e u) h k =
    ground (arith, str_lt_trans s t u)

pub str_lt_asymm : (s t : String) → str_lt s t ≡ true → str_lt t s ≡ false
unfolding str_lt
str_lt_asymm String.[] String.[] h = refl
str_lt_asymm String.[] (String.◌∷◌ d t) h = refl
str_lt_asymm (String.◌∷◌ c s) String.[] h = cc
str_lt_asymm (String.◌∷◌ c s) (String.◌∷◌ d t) h = ground (arith, str_lt_asymm s t)

-- Texts that are not ordered either way are equal.
pub str_lt_total : (s t : String) → str_lt s t ≡ false → str_lt t s ≡ false → s ≡ t
unfolding str_lt
str_lt_total String.[] String.[] h k = refl
str_lt_total String.[] (String.◌∷◌ d t) h k = cc
str_lt_total (String.◌∷◌ c s) String.[] h k = cc
str_lt_total (String.◌∷◌ c s) (String.◌∷◌ d t) h k =
    ap₂ String.◌∷◌ (Char-path c d (ground arith)) (str_lt_total s t (ground arith) (ground arith))

-- Rust's `str::strip_prefix`.
unfoldable pub strip_prefix : String → String → Option String
strip_prefix String.[] s = some s
strip_prefix (String.◌∷◌ d t) String.[] = none
strip_prefix (String.◌∷◌ d t) (String.◌∷◌ c s) =
    let rest = strip_prefix t s in if nat_eq (code c) (code d) then rest else none

-- Rust's `str::starts_with`.
unfoldable pub starts_with : String → String → Bool
unfolding strip_prefix
starts_with s t = elim (strip_prefix t s) [ none ↦ false | some _ ↦ true ]

abbrev with_front : Char → String → Option (String × String) → Bool → Option (String × String)
with_front d s (some (a, b)) here = some (String.◌∷◌ d a, b)
with_front d s none true = some (String.[], s)
with_front d s none false = none

-- Rust's `str::rsplit_once`.
unfoldable pub rsplit_once : ℕ → String → Option (String × String)
rsplit_once c String.[] = none
rsplit_once c (String.◌∷◌ d s) = with_front d s (rsplit_once c s) (nat_eq (code d) c)

-- The last separator is the one behind which no other stands.
pub rsplit_once-last :
    (c : Char) (s t : String)
    → rsplit_once (code c) t ≡ none
    → rsplit_once (code c) (join s (String.◌∷◌ c t)) ≡ some (s, t)
unfolding rsplit_once
rsplit_once-last c String.[] t h =
    ap (rsplit_once (code c)) (nil-append (String.◌∷◌ c t)) ∙ ground (arith, h)
rsplit_once-last c (String.◌∷◌ d s) t h =
    ap (rsplit_once (code c)) (cons-append d s (String.◌∷◌ c t))
    ∙ ground (arith, rsplit_once-last c s t h)

-- The character at a position that the text has.
abbrev pub char_at : String → ℕ → Char
char_at String.[] i = "0"
char_at (String.◌∷◌ c s) zero = c
char_at (String.◌∷◌ c s) (suc i) = char_at s i

-- Rust's `str::to_ascii_lowercase`.
unfoldable pub to_ascii_lowercase : String → String
to_ascii_lowercase String.[] = String.[]
to_ascii_lowercase (String.◌∷◌ c s) =
    String.◌∷◌
      (if leb b'A' (code c) && leb (code c) b'Z'
        then char_at "abcdefghijklmnopqrstuvwxyz" (code c - b'A')
        else c)
      (to_ascii_lowercase s)

pub strip_prefix-join : (p s : String) → strip_prefix p (join p s) ≡ some s
unfolding strip_prefix
strip_prefix-join String.[] s = ap some (nil-append s)
strip_prefix-join (String.◌∷◌ c p) s = ground (arith, cons-append c p s, strip_prefix-join p s)
