-- ===== src/Base/Scalar.antt =====
-- `char::from_u32`: the numbers that are characters.
use Prim.Native.Char.{Char, char, code}
use Prim.Native.Nat.{ℕ, ◌<◌, compare, Ordering}
use mathlib.Core.Path.{◌≡◌, refl, ap}
use mathlib.Core.Option.{Option, none, some}
use native.Mathlib.Omega.{arith}
use slopd.Base.Tests.{map_option}

-- `IsScalar` by its three comparisons: below the surrogates, or between them and 0x110000.
abbrev Below : Ordering → Type 0
Below Ordering.lt = Unit
Below Ordering.eq = ⊥
Below Ordering.gt = ⊥

abbrev Between : Ordering → Ordering → Type 0
Between Ordering.lt o = Below o
Between Ordering.eq _ = ⊥
Between Ordering.gt _ = ⊥

abbrev Scalar : Ordering → Ordering → Ordering → Type 0
Scalar Ordering.lt _ _ = Unit
Scalar Ordering.eq o p = Between o p
Scalar Ordering.gt o p = Between o p

between_or_none : (b c : Ordering) → Option (Between b c)
between_or_none Ordering.lt Ordering.lt = some tt
between_or_none Ordering.lt Ordering.eq = none
between_or_none Ordering.lt Ordering.gt = none
between_or_none Ordering.eq c = none
between_or_none Ordering.gt c = none

scalar_or_none : (a b c : Ordering) → Option (Scalar a b c)
unfolding between_or_none
scalar_or_none Ordering.lt b c = some tt
scalar_or_none Ordering.eq b c = between_or_none b c
scalar_or_none Ordering.gt b c = between_or_none b c

between_or_none-some : (b c : Ordering) (p : Between b c) → between_or_none b c ≡ some p
unfolding between_or_none
between_or_none-some Ordering.lt Ordering.lt p = refl
between_or_none-some Ordering.lt Ordering.eq p = absurd p
between_or_none-some Ordering.lt Ordering.gt p = absurd p
between_or_none-some Ordering.eq c p = absurd p
between_or_none-some Ordering.gt c p = absurd p

scalar_or_none-some : (a b c : Ordering) (p : Scalar a b c) → scalar_or_none a b c ≡ some p
unfolding scalar_or_none
scalar_or_none-some Ordering.lt b c p = refl
scalar_or_none-some Ordering.eq b c p = between_or_none-some b c p
scalar_or_none-some Ordering.gt b c p = between_or_none-some b c p

-- `char::from_u32`
unfoldable pub char_of : ℕ → Option Char
unfolding scalar_or_none
char_of n =
    map_option (char n) (scalar_or_none (compare n 55296) (compare 57343 n) (compare n 1114112))

pub char_of-code : (c : Char) → char_of (code c) ≡ some c
unfolding char_of
char_of-code (char n p) =
    ap (map_option (char n))
      (scalar_or_none-some (compare n 55296) (compare 57343 n) (compare n 1114112) p)

between-lt : (n : ℕ) (b c : Ordering) → compare n 1114112 ≡ c → Between b c → n < 1114112
between-lt n Ordering.lt Ordering.lt e p = ground (arith, e)
between-lt n Ordering.lt Ordering.eq e p = absurd p
between-lt n Ordering.lt Ordering.gt e p = absurd p
between-lt n Ordering.eq c e p = absurd p
between-lt n Ordering.gt c e p = absurd p

scalar-lt :
    (n : ℕ) (a b c : Ordering)
    → compare n 55296 ≡ a
    → compare n 1114112 ≡ c
    → Scalar a b c
    → n < 1114112
scalar-lt n Ordering.lt b c e f p = ground (arith, e)
scalar-lt n Ordering.eq b c e f p = between-lt n b c f p
scalar-lt n Ordering.gt b c e f p = between-lt n b c f p

pub code-lt : (c : Char) → code c < 1114112
code-lt (char n p) = scalar-lt n (compare n 55296) (compare 57343 n) (compare n 1114112) refl refl p
