-- ===== src/Base/Assoc.antt =====
-- Rust's `HashMap`, over the equality of its keys. An insertion replaces, so that a key stands once.
use Prim.Native.String.{String}
use mathlib.Core.Path.{◌≡◌}
use mathlib.Core.Logic.{◌↔◌}
use mathlib.Core.Bool.{Bool, true, false, ◌||◌, ◌&&◌}
use mathlib.Core.Option.{Option, none, some}
use mathlib.Core.List.{List, [], ◌∷◌}
use native.Mathlib.Omega.{arith}
use text.Mathlib.Text.{◌==◌}
use text.Mathlib.TextEquality.{eq_iff}
use slopd.Base.Tests.{if◌then◌else◌}

pub record Eq {ℓ} (A : Type ℓ) : Type ℓ where
  pub beq : A → A → Bool
  pub beq_iff : (a b : A) → (beq a b ≡ true) ↔ (a ≡ b)

instance abbrev pub string_eq : Eq String
string_eq = record { beq = ◌==◌; beq_iff = eq_iff }

abbrev pub Map {ℓ} : Type ℓ → Type ℓ → Type ℓ
Map K V = List (K × V)

module _ {ℓ} {K : Type ℓ} ⦃e : Eq K⦄ where
  -- `contains` of a `HashSet` or of a slice.
  unfoldable pub contains : List K → K → Bool
  contains [] a = false
  contains (x ∷ xs) a = e.beq x a || contains xs a

module _ {ℓ} {K V : Type ℓ} ⦃e : Eq K⦄ where
  unfoldable pub get : Map K V → K → Option V
  get [] k = none
  get ((j, v) ∷ m) k = let rest = get m k in if e.beq j k then some v else rest

  -- `retain` by a test of the key.
  unfoldable pub retain_keys : (K → Bool) → Map K V → Map K V
  retain_keys p [] = []
  retain_keys p ((j, v) ∷ m) = let rest = retain_keys p m in if p j then (j, v) ∷ rest else rest

  unfoldable pub remove_key : K → Map K V → Map K V
  remove_key k [] = []
  remove_key k ((j, v) ∷ m) = let rest = remove_key k m in if e.beq j k then rest else (j, v) ∷ rest

  unfoldable pub insert : K → V → Map K V → Map K V
  unfolding remove_key
  insert k v m = (k, v) ∷ remove_key k m

  pub get-remove_key :
      (k j : K) (m : Map K V) → get (remove_key k m) j ≡ (if e.beq k j then none else get m j)
  unfolding get remove_key
  get-remove_key k j [] = ground arith
  get-remove_key k j ((i, v) ∷ m) =
      ground (arith, get-remove_key k j m, e.beq_iff i k, e.beq_iff i j, e.beq_iff k j)

  pub get-insert :
      (k j : K) (v : V) (m : Map K V)
      → get (insert k v m) j ≡ (if e.beq k j then some v else get m j)
  unfolding get insert
  get-insert k j v m = ground (arith, get-remove_key k j m)

  pub get-retain_keys :
      (p : K → Bool) (j : K) (m : Map K V)
      → get (retain_keys p m) j ≡ (if p j then get m j else none)
  unfolding get retain_keys
  get-retain_keys p j [] = ground arith
  get-retain_keys p j ((i, v) ∷ m) = ground (arith, get-retain_keys p j m, e.beq_iff i j)

-- The derived `PartialEq`s of `Option` and of a vector.
module _ {ℓ} {A : Type ℓ} ⦃e : Eq A⦄ where
  unfoldable pub option_beq : Option A → Option A → Bool
  option_beq none none = true
  option_beq (some a) (some b) = e.beq a b
  option_beq _ _ = false

  unfoldable pub list_beq : List A → List A → Bool
  list_beq [] [] = true
  list_beq (x ∷ xs) (y ∷ ys) = e.beq x y && list_beq xs ys
  list_beq _ _ = false

  pub option_beq_iff : (a b : Option A) → (option_beq a b ≡ true) ↔ (a ≡ b)
  unfolding option_beq
  option_beq_iff none none = ground arith
  option_beq_iff none (some b) = ground arith
  option_beq_iff (some a) none = ground arith
  option_beq_iff (some a) (some b) = ground (arith, e.beq_iff a b)

  pub list_beq_iff : (xs ys : List A) → (list_beq xs ys ≡ true) ↔ (xs ≡ ys)
  unfolding list_beq
  list_beq_iff [] [] = ground arith
  list_beq_iff [] (y ∷ ys) = ground arith
  list_beq_iff (x ∷ xs) [] = ground arith
  list_beq_iff (x ∷ xs) (y ∷ ys) = ground (arith, e.beq_iff x y, list_beq_iff xs ys)
