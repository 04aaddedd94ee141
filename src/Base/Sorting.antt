-- ===== src/Base/Sorting.antt =====
-- Rust's stable `sort_by`, as an insertion sort over a test `before a b`: `a` strictly precedes `b`.
use mathlib.Core.Path.{◌≡◌}
use mathlib.Core.Logic.{◌⊎◌, inl, inr}
use mathlib.Core.Bool.{Bool, true, false}
use mathlib.Core.List.{List, [], ◌∷◌}
use native.Mathlib.Omega.{arith}
use slopd.Base.Tests.{if◌then◌else◌, Bool-cases}
use slopd.Base.Lists.{All, filter}

module _ {ℓ} {A : Type ℓ} (before : A → A → Bool) where
  unfoldable pub insert_by : A → List A → List A
  insert_by x [] = x ∷ []
  insert_by x (y ∷ ys) = let rest = insert_by x ys in if before y x then y ∷ rest else x ∷ y ∷ ys

  unfoldable pub sort_by : List A → List A
  unfolding insert_by
  sort_by [] = []
  sort_by (x ∷ xs) = insert_by x (sort_by xs)

  -- Every entry precedes all that stand behind it.
  abbrev pub IsChain : List A → Type 0
  IsChain [] = Unit
  IsChain (x ∷ xs) = All (λ y. before x y ≡ true) xs × IsChain xs

  -- Any two entries are ordered one way or the other.
  abbrev pub IsComparable : List A → Type 0
  IsComparable [] = Unit
  IsComparable (x ∷ xs) = All (λ y. (before x y ≡ true) ⊎ (before y x ≡ true)) xs × IsComparable xs

  pub All-insert_by {κ} :
      (P : A → Type κ) (x : A) (ys : List A) → P x → All P ys → All P (insert_by x ys)
  unfolding insert_by
  All-insert_by P x [] h k = (h, tt)
  All-insert_by P x (y ∷ ys) h k = elim (Bool-cases (before y x)) [
    | inl e ↦ rw e (k.0, All-insert_by P x ys h k.1)
    | inr e ↦ rw e (h, k)
  ]

  pub All-sort_by {κ} : (P : A → Type κ) (xs : List A) → All P xs → All P (sort_by xs)
  unfolding sort_by
  All-sort_by P [] h = tt
  All-sort_by P (x ∷ xs) h = All-insert_by P x (sort_by xs) h.0 (All-sort_by P xs h.1)

  module _ (trans : (a b c : A) → before a b ≡ true → before b c ≡ true → before a c ≡ true) where
    before-All :
        (x y : A) (ys : List A)
        → before x y ≡ true
        → All (λ z. before y z ≡ true) ys
        → All (λ z. before x z ≡ true) ys
    before-All x y [] h k = tt
    before-All x y (z ∷ ys) h k = (trans x y z h k.0, before-All x y ys h k.1)

    insert_by-IsChain :
        (x : A) (ys : List A)
        → All (λ y. (before x y ≡ true) ⊎ (before y x ≡ true)) ys
        → IsChain ys
        → IsChain (insert_by x ys)
    unfolding insert_by
    insert_by-IsChain x [] h k = (tt, tt)
    insert_by-IsChain x (y ∷ ys) h k = elim (Bool-cases (before y x)) [
      | inl e ↦
          rw e (All-insert_by (λ z. before y z ≡ true) x ys e k.0, insert_by-IsChain x ys h.1 k.1)
      | inr e ↦ rw e (
          let x_first : before x y ≡ true = ground (arith, h.0) in
          ((x_first, before-All x y ys x_first k.0), k))
    ]

    -- Sorting entries that are pairwise ordered makes a chain.
    pub sort_by-IsChain : (xs : List A) → IsComparable xs → IsChain (sort_by xs)
    unfolding sort_by
    sort_by-IsChain [] h = tt
    sort_by-IsChain (x ∷ xs) h =
        insert_by-IsChain x (sort_by xs)
          (All-sort_by (λ y. (before x y ≡ true) ⊎ (before y x ≡ true)) xs h.0)
          (sort_by-IsChain xs h.1)

  -- No entry stands behind one that it precedes.
  abbrev pub IsSorted : List A → Type 0
  IsSorted [] = Unit
  IsSorted (x ∷ xs) = All (λ y. before y x ≡ false) xs × IsSorted xs

  module _ (asymm : (a b : A) → before a b ≡ true → before b a ≡ false)
      (neg_trans : (a b c : A) → before b a ≡ false → before c b ≡ false → before c a ≡ false) where
    not_before-All :
        (x y : A) (ys : List A)
        → before y x ≡ false
        → All (λ z. before z y ≡ false) ys
        → All (λ z. before z x ≡ false) ys
    not_before-All x y [] h k = tt
    not_before-All x y (z ∷ ys) h k = (neg_trans x y z h k.0, not_before-All x y ys h k.1)

    insert_by-IsSorted : (x : A) (ys : List A) → IsSorted ys → IsSorted (insert_by x ys)
    unfolding insert_by
    insert_by-IsSorted x [] k = (tt, tt)
    insert_by-IsSorted x (y ∷ ys) k = elim (Bool-cases (before y x)) [
      | inl e ↦ rw e (
        All-insert_by (λ z. before z y ≡ false) x ys (asymm y x e) k.0,
        insert_by-IsSorted x ys k.1,
      )
      | inr e ↦ rw e ((e, not_before-All x y ys e k.0), k)
    ]

    pub sort_by-IsSorted : (xs : List A) → IsSorted (sort_by xs)
    unfolding sort_by
    sort_by-IsSorted [] = tt
    sort_by-IsSorted (x ∷ xs) = insert_by-IsSorted x (sort_by xs) (sort_by-IsSorted xs)

  pub filter-IsSorted : (p : A → Bool) (xs : List A) → IsSorted xs → IsSorted (filter p xs)
  filter-IsSorted p [] h = tt
  filter-IsSorted p (x ∷ xs) h = elim (Bool-cases (p x)) [
    | inl e ↦
        rw e
          (slopd.Base.Lists.All-filter (λ y. before y x ≡ false) p xs h.0, filter-IsSorted p xs h.1)
    | inr e ↦ rw e (filter-IsSorted p xs h.1)
  ]

  pub filter-IsChain : (p : A → Bool) (xs : List A) → IsChain xs → IsChain (filter p xs)
  filter-IsChain p [] h = tt
  filter-IsChain p (x ∷ xs) h = elim (Bool-cases (p x)) [
    | inl e ↦
        rw e
          (slopd.Base.Lists.All-filter (λ y. before x y ≡ true) p xs h.0, filter-IsChain p xs h.1)
    | inr e ↦ rw e (filter-IsChain p xs h.1)
  ]
