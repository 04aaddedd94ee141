-- ===== src/Acp/Victims.antt =====
-- slopd-acp/src/adapter.rs: the session that is evicted.
use slopd.Base.{
  ℕ, ◌≤◌, All-map, String, true, false, Option, none, some, [], ◌∷◌, Map, get, All, leb, string_eq,
  eq_refl, ◌≡◌, ap, subst, arith, inl, inr, Bool-cases, Option-cases,
}
use slopd.Acp.Session.{Session}
use slopd.Acp.Eviction.{is_evictable, less_used, victim_of}
use slopd.Acp.Catalog.{IsDistinct, get-behind}

-- What is promised of a victim.
abbrev pub IsVictim : Map String Session → String → Session → Type 0
IsVictim m id s = (get m id ≡ some s) × (is_evictable s ≡ true)

first-IsVictim :
    (k id : String) (t s : Session) (m : Map String Session)
    → is_evictable t ≡ true
    → ◌≡◌ {A = Option (String × Session)} (some (k, t)) (some (id, s))
    → IsVictim ((k, t) ∷ m) id s
unfolding get
first-IsVictim k id t s m e h =
    subst (λ j. (get ((k, t) ∷ m) j ≡ some s) × (is_evictable s ≡ true)) (ap (key_of k) h)
      (subst (λ u. (get ((k, t) ∷ m) k ≡ some u) × (is_evictable u ≡ true)) (ap (value_of t) h)
        (rw (eq_refl k), e))
  where
    key_of : String → Option (String × Session) → String
    key_of d none = d
    key_of d (some (k, t)) = k

    value_of : Session → Option (String × Session) → Session
    value_of d none = d
    value_of d (some (k, t)) = t

-- The victim is in the catalog, with a pane and without a turn.
pub victim_of-IsVictim :
    (m : Map String Session) (id : String) (s : Session)
    → IsDistinct m
    → victim_of m ≡ some (id, s)
    → IsVictim m id s
unfolding victim_of
victim_of-IsVictim [] id s d h = absurd (ground (arith, h))
victim_of-IsVictim ((k, t) ∷ m) id s d h = elim (Bool-cases (is_evictable t)) [
  | inl e ↦ elim (Option-cases (victim_of m)) [
    | inl f ↦ first-IsVictim k id t s m e (ground (arith, e, f, h))
    | inr ((o, u), f) ↦ elim (Bool-cases (leb t.last_used u.last_used)) [
      | inl g ↦ first-IsVictim k id t s m e (ground (arith, e, f, g, h))
      | inr g ↦
          let v = victim_of-IsVictim m id s d.1 (ground (arith, e, f, g, h)) in
          (get-behind k id t s m d.0 v.0, v.1)
    ]
  ]
  | inr e ↦
      let v = victim_of-IsVictim m id s d.1 (ground (arith, e, h)) in
      (get-behind k id t s m d.0 v.0, v.1)
]

-- With no victim there is no session that could be evicted.
pub victim_of-none :
    (m : Map String Session)
    → victim_of m ≡ none
    → All (λ (e : String × Session). is_evictable e.1 ≡ false) m
unfolding victim_of
victim_of-none [] h = tt
victim_of-none ((k, t) ∷ m) h = elim (Bool-cases (is_evictable t)) [
  | inl e ↦ elim (Option-cases (victim_of m)) [
    | inl f ↦ absurd (ground (arith, e, f, h))
    | inr ((o, u), f) ↦ absurd (ground (arith, e, f, h))
  ]
  | inr e ↦ (e, victim_of-none m (ground (arith, e, h)))
]

abbrev last_of : Option (String × Session) → ℕ
last_of none = 0
last_of (some (id, s)) = s.last_used

-- A session that could be evicted was last used at `n` or later.
abbrev pub IsLater : ℕ → String × Session → Type 0
IsLater n e = is_evictable e.1 ≡ true → n ≤ e.1.last_used

-- No session that could be evicted was used less recently.
pub victim_of-least :
    (m : Map String Session) (id : String) (s : Session)
    → victim_of m ≡ some (id, s)
    → All (IsLater s.last_used) m
unfolding victim_of
victim_of-least [] id s h = tt
victim_of-least ((k, t) ∷ m) id s h = elim (Bool-cases (is_evictable t)) [
  | inl e ↦ elim (Option-cases (victim_of m)) [
    | inl f ↦
        let q : t.last_used ≡ s.last_used = ap last_of (rw (e, f) at h) in
        (
          (λ _. omega (arith, q)),
          All-map (λ x. is_evictable x.1 ≡ false) (IsLater s.last_used) m
              (λ x n y. absurd (ground (arith, n, y))) (victim_of-none m f),
        )
    | inr ((o, u), f) ↦
        let c : less_used k t (some (o, u)) ≡ some (id, s) = rw (e, f) at h in
        elim (Bool-cases (leb t.last_used u.last_used)) [
          | inl g ↦
              let q : t.last_used ≡ s.last_used = ground (arith, g, ap last_of c) in
              (
                (λ _. omega (arith, q)),
                All-map (IsLater u.last_used) (IsLater s.last_used) m
                    (λ x n y. ground (arith, n y, q, g)) (victim_of-least m o u f),
              )
          | inr g ↦
              let q : u.last_used ≡ s.last_used = ground (arith, g, ap last_of c) in
              (
                (λ _. ground (arith, q, g)),
                All-map (IsLater u.last_used) (IsLater s.last_used) m
                    (λ x n y. omega (arith, n y, q)) (victim_of-least m o u f),
              )
        ]
  ]
  | inr e ↦ ((λ y. absurd (ground (arith, e, y))), victim_of-least m id s (ground (arith, e, h)))
]
