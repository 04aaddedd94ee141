-- ===== src/Leases/Ids.antt =====
-- slopd/src/main.rs, the lease handlers: the ids of the leases of a registry.
use slopd.Base.{
  ℕ, String, Bool, true, false, Option, none, some, [], ◌∷◌, Map, get, remove_key, string_eq, All,
  Bool-cases, ◌∙◌, inl, inr, arith, eq_iff, ◌≡◌, ◌≢◌, refl, sym, subst, if◌then◌else◌, ◌==◌,
}
use slopd.Leases.Tags.{LeaseGrant}
use slopd.Leases.Registry.{
  LeaseState, Leases, LeaseError, change_first, find_valid, after_change, is_valid, is_active,
}

-- No lease of the registry has this id.
abbrev pub IsFreshId : String → Map String LeaseState → Type 0
IsFreshId id = All (λ (kv : String × LeaseState). kv.1.grant.lease_id ≢ id)

abbrev pub HaveDistinctIds : Map String LeaseState → Type 0
HaveDistinctIds [] = Unit
HaveDistinctIds ((k, l) ∷ m) = IsFreshId l.grant.lease_id m × HaveDistinctIds m

pub change_first-none :
    (p : LeaseState → Bool) (f : LeaseState → LeaseState) (m : Map String LeaseState)
    → All (λ (kv : String × LeaseState). p kv.1 ≡ false) m
    → change_first p f m ≡ none
unfolding change_first
change_first-none p f [] h = refl
change_first-none p f ((k, l) ∷ m) h = rw (h.0, change_first-none p f m h.1) refl

pub not_valid-fresh :
    (now : ℕ) (id : String) (g : ℕ) (m : Map String LeaseState)
    → IsFreshId id m
    → All (λ (kv : String × LeaseState). is_valid now id g kv.1 ≡ false) m
not_valid-fresh now id g [] h = tt
not_valid-fresh now id g ((k, l) ∷ m) h =
    (ground (arith, eq_iff l.grant.lease_id id, h.0), not_valid-fresh now id g m h.1)

pub not_active-fresh :
    (id : String) (g : ℕ) (m : Map String LeaseState)
    → IsFreshId id m
    → All (λ (kv : String × LeaseState). is_active id g kv.1 ≡ false) m
not_active-fresh id g [] h = tt
not_active-fresh id g ((k, l) ∷ m) h =
    (ground (arith, eq_iff l.grant.lease_id id, h.0), not_active-fresh id g m h.1)

pub find_valid-fresh :
    (now : ℕ) (id : String) (g : ℕ) (m : Map String LeaseState)
    → IsFreshId id m
    → find_valid now id g m ≡ none
unfolding find_valid
find_valid-fresh now id g [] h = refl
find_valid-fresh now id g ((k, l) ∷ m) h =
    rw ((not_valid-fresh now id g ((k, l) ∷ m) h).0, find_valid-fresh now id g m h.1) refl

pub All-remove_key {ℓ} :
    (P : String × LeaseState → Type ℓ) (k : String) (m : Map String LeaseState)
    → All P m
    → All P (remove_key k m)
unfolding remove_key
All-remove_key P k [] h = tt
All-remove_key P k ((j, l) ∷ m) h = elim (Bool-cases (j == k)) [
  | inl e ↦ rw e (All-remove_key P k m h.1)
  | inr e ↦ rw e (h.0, All-remove_key P k m h.1)
]

pub remove_key-HaveDistinctIds :
    (k : String) (m : Map String LeaseState) → HaveDistinctIds m → HaveDistinctIds (remove_key k m)
unfolding remove_key
remove_key-HaveDistinctIds k [] h = tt
remove_key-HaveDistinctIds k ((j, l) ∷ m) h = elim (Bool-cases (j == k)) [
  | inl e ↦ rw e (remove_key-HaveDistinctIds k m h.1)
  | inr e ↦ rw e (
    All-remove_key (λ kv. kv.1.grant.lease_id ≢ l.grant.lease_id) k m h.0,
    remove_key-HaveDistinctIds k m h.1,
  )
]

pub get-fresh :
    (k : String) (l : LeaseState) (id : String) (m : Map String LeaseState)
    → IsFreshId id m
    → get m k ≡ some l
    → l.grant.lease_id ≢ id
unfolding get
get-fresh k l id [] h e = absurd cc
get-fresh k l id ((j, x) ∷ m) h e = ground (arith, h.0, e, get-fresh k l id m h.1)

pub remove_key-IsFreshId :
    (k : String) (old : LeaseState) (m : Map String LeaseState)
    → HaveDistinctIds m
    → get m k ≡ some old
    → IsFreshId old.grant.lease_id (remove_key k m)
unfolding get remove_key
remove_key-IsFreshId k old [] d e = tt
remove_key-IsFreshId k old ((j, l) ∷ m) d e = elim (Bool-cases (j == k)) [
  | inl f ↦
      let same : l ≡ old = ground (arith, e, f) in
      rw f (
        subst (λ (x : LeaseState). IsFreshId x.grant.lease_id (remove_key k m)) same
          (All-remove_key (λ kv. kv.1.grant.lease_id ≢ l.grant.lease_id) k m d.0))
  | inr f ↦
      let found : get m k ≡ some old = ground (arith, e, f) in
      rw f (
        λ c. get-fresh k old l.grant.lease_id m d.0 found (sym c),
        remove_key-IsFreshId k old m d.1 found,
      )
]

-- The registry that a `find` and a change leave.
abbrev left_by :
    Option (LeaseGrant × Map String LeaseState) → Map String LeaseState → Map String LeaseState
left_by none m = m
left_by (some (g, n)) m = n

abbrev changed :
    (LeaseState → Bool) → (LeaseState → LeaseState) → Map String LeaseState → Map String LeaseState
changed p f m = left_by (change_first p f m) m

changed-cons :
    (p : LeaseState → Bool) (f : LeaseState → LeaseState) (k : String) (l : LeaseState)
    (m : Map String LeaseState)
    → changed p f ((k, l) ∷ m) ≡ (if p l then (k, f l) ∷ m else (k, l) ∷ changed p f m)
unfolding change_first
changed-cons p f k l m = go (p l) (change_first p f m)
  where
    go :
        (b : Bool) (o : Option (LeaseGrant × Map String LeaseState))
        → left_by
            (if b
              then some ((f l).grant, (k, f l) ∷ m)
              else elim o [ none ↦ none | some (g, n) ↦ some (g, (k, l) ∷ n) ])
            ((k, l) ∷ m)
          ≡ (if b then (k, f l) ∷ m else (k, l) ∷ left_by o m)
    go true o = refl
    go false none = refl
    go false (some (g, n)) = refl

module _ (p : LeaseState → Bool) (f : LeaseState → LeaseState)
    (keeps : (l : LeaseState) → (f l).grant.lease_id ≡ l.grant.lease_id) where
  changed-IsFreshId :
      (id : String) (m : Map String LeaseState) → IsFreshId id m → IsFreshId id (changed p f m)
  unfolding change_first
  changed-IsFreshId id [] h = tt
  changed-IsFreshId id ((k, l) ∷ m) h =
      subst (IsFreshId id) (sym (changed-cons p f k l m)) (elim (Bool-cases (p l)) [
        | inl e ↦ rw e (λ c. h.0 (sym (keeps l) ∙ c), h.1)
        | inr e ↦ rw e (h.0, changed-IsFreshId id m h.1)
      ])

  pub changed-HaveDistinctIds :
      (m : Map String LeaseState) → HaveDistinctIds m → HaveDistinctIds (changed p f m)
  unfolding change_first
  changed-HaveDistinctIds [] h = tt
  changed-HaveDistinctIds ((k, l) ∷ m) h =
      subst HaveDistinctIds (sym (changed-cons p f k l m)) (elim (Bool-cases (p l)) [
        | inl e ↦ rw e (subst (λ id. IsFreshId id m) (sym (keeps l)) h.0, h.1)
        | inr e ↦ rw e (changed-IsFreshId l.grant.lease_id m h.0, changed-HaveDistinctIds m h.1)
      ])

pub after_change-registry :
    (t : String → Bool) (e : LeaseError) (o : Option (LeaseGrant × Map String LeaseState))
    (s : Leases)
    → (after_change t e o s).1.registry ≡ left_by o s.registry
after_change-registry t e none s = refl
after_change-registry t e (some (g, n)) s = refl
