-- ===== src/Base/Suffix.antt =====
-- Rust's `str::strip_suffix`, `str::ends_with` and the first of `str::split_whitespace`.
use Prim.Native.Char.{Char, code}
use Prim.Native.Nat.{ℕ, suc, ◌+◌}
use Prim.Native.String.{String, ◌++◌ as join}
use mathlib.Core.Path.{◌≡◌, refl, ap, ◌∙◌}
use mathlib.Core.Bool.{Bool, false, ◌||◌, ◌&&◌}
use mathlib.Core.Logic.{inl, inr}
use mathlib.Core.Option.{Option, none, some}
use native.Mathlib.Omega.{arith}
use text.Mathlib.Text.{◌==◌}
use text.Mathlib.TextEquality.{eq_iff}
use text.Mathlib.TextPositions.{eq_refl}
use text.Mathlib.TextLemmas.{nil-append, cons-append}
use slopd.Base.Tests.{leb, nat_eq, if◌then◌else◌, map_option, Bool-cases, is_some}

-- `char::is_whitespace`, by the code of the character.
unfoldable pub is_whitespace : ℕ → Bool
is_whitespace c =
    leb 9 c && leb c 13
    || nat_eq c 32
    || nat_eq c 133
    || nat_eq c 160
    || nat_eq c 5760
    || leb 8192 c && leb c 8202
    || nat_eq c 8232
    || nat_eq c 8233
    || nat_eq c 8239
    || nat_eq c 8287
    || nat_eq c 12288

unfoldable pub strip_suffix : String → String → Option String
strip_suffix suffix String.[] = if String.[] == suffix then some String.[] else none
strip_suffix suffix (String.◌∷◌ c s) =
    let rest = strip_suffix suffix s in
    if String.◌∷◌ c s == suffix then some String.[] else map_option (String.◌∷◌ c) rest

unfoldable pub ends_with : String → String → Bool
unfolding strip_suffix
ends_with s suffix = is_some (strip_suffix suffix s)

-- The text up to the first whitespace.
until_space : String → String
unfolding is_whitespace
until_space String.[] = String.[]
until_space (String.◌∷◌ c s) =
    let rest = until_space s in if is_whitespace (code c) then String.[] else String.◌∷◌ c rest

-- `split_whitespace().next().unwrap_or("")`
unfoldable pub first_token : String → String
unfolding is_whitespace until_space
first_token String.[] = String.[]
first_token (String.◌∷◌ c s) =
    let rest = first_token s in
    if is_whitespace (code c) then rest else String.◌∷◌ c (until_space s)

size : String → ℕ
size String.[] = 0
size (String.◌∷◌ c s) = suc (size s)

size-join : (s t : String) → size (join s t) ≡ size s + size t
unfolding size
size-join String.[] t = ap size (nil-append t) ∙ omega arith
size-join (String.◌∷◌ c s) t = ap size (cons-append c s t) ∙ omega (arith, size-join s t)

longer : (c : Char) (s t : String) → (String.◌∷◌ c (join s t) == t) ≡ false
unfolding size
longer c s t = elim (Bool-cases (String.◌∷◌ c (join s t) == t)) [
  | inl e ↦ absurd (omega (arith, size-join s t, ap size ((eq_iff _ t).0 e)))
  | inr e ↦ e
]

-- The suffix that was appended is taken off again.
pub strip_suffix-join : (s t : String) → strip_suffix t (join s t) ≡ some s
unfolding strip_suffix
strip_suffix-join String.[] t = ap (strip_suffix t) (nil-append t) ∙ whole t
  where
    whole : (t : String) → strip_suffix t t ≡ some String.[]
    whole String.[] = refl
    whole (String.◌∷◌ c s) = rw (eq_refl (String.◌∷◌ c s))
strip_suffix-join (String.◌∷◌ c s) t =
    ap (strip_suffix t) (cons-append c s t) ∙ rw (longer c s t, strip_suffix-join s t)
