-- ===== src/Acp/Catalog.antt =====
-- The catalog of sessions under the changes that the adapter makes.
use slopd.Base.{
  ℕ, ◌+◌, ◌≤◌, String, false, Option, none, some, List, [], ◌∷◌, Map, get, is_some, map_option,
  find, ◌==◌, string_eq, eq_iff, eq_refl, ◌≡◌, refl, ap, ◌∙◌, subst, arith, inl, inr, Bool-cases,
  Option-cases, if◌then◌else◌,
}
use slopd.Pane.Info.{PaneInfo}
use slopd.Acp.Session.{Session, modify, live_count}
use slopd.Acp.Eviction.{reconcile_all, reconcile_pane}

-- Every id stands once.
abbrev pub IsDistinct : Map String Session → Type 0
IsDistinct [] = Unit
IsDistinct ((k, s) ∷ m) = (get m k ≡ none) × IsDistinct m

abbrev pub live : Session → ℕ
live s = if is_some s.pane_id then 1 else 0

pub get-modify :
    (id j : String) (f : Session → Session) (m : Map String Session)
    → get (modify id f m) j ≡ (if id == j then map_option f (get m j) else get m j)
unfolding get modify
get-modify id j f [] = ground arith
get-modify id j f ((k, s) ∷ m) =
    ground (arith, get-modify id j f m, eq_iff k id, eq_iff k j, eq_iff id j)

pub get-modify_self :
    (id : String) (f : Session → Session) (m : Map String Session) {s : Session}
    → get m id ≡ some s
    → get (modify id f m) id ≡ some (f s)
get-modify_self id f m h = get-modify id id f m ∙ rw (eq_refl id, h)

pub get-modify_other :
    (id j : String) (f : Session → Session) (m : Map String Session)
    → (id == j) ≡ false
    → get (modify id f m) j ≡ get m j
get-modify_other id j f m h = get-modify id j f m ∙ rw h

modify-none :
    (id j : String) (f : Session → Session) (m : Map String Session)
    → get m j ≡ none
    → get (modify id f m) j ≡ none
modify-none id j f m h = get-modify id j f m ∙ ground (arith, h)

pub modify-IsDistinct :
    (id : String) (f : Session → Session) (m : Map String Session)
    → IsDistinct m
    → IsDistinct (modify id f m)
unfolding modify
modify-IsDistinct id f [] h = tt
modify-IsDistinct id f ((k, s) ∷ m) h = elim (Bool-cases (k == id)) [
  | inl e ↦ rw e h
  | inr e ↦ rw e (modify-none id k f m h.0, modify-IsDistinct id f m h.1)
]

-- One session is counted anew.
pub live_count-modify :
    (id : String) (f : Session → Session) (m : Map String Session) (s : Session)
    → get m id ≡ some s
    → live_count (modify id f m) + live s ≡ live_count m + live (f s)
unfolding live_count modify get
live_count-modify id f [] s h = cc
live_count-modify id f ((k, t) ∷ m) s h = elim (Bool-cases (k == id)) [
  | inl e ↦
      let same : t ≡ s = ground (arith, e, h) in
      rw e (
        subst (λ u. live (f t) + live_count m + live u ≡ live t + live_count m + live (f u)) same
          (omega arith))
  | inr e ↦
      let rest : get m id ≡ some s = ground (arith, e, h) in
      rw e (omega (arith, live_count-modify id f m s rest))
]

pub live_count-modify_same :
    (id : String) (f : Session → Session) (m : Map String Session)
    → ((s : Session) → live (f s) ≡ live s)
    → live_count (modify id f m) ≡ live_count m
unfolding live_count modify
live_count-modify_same id f [] h = refl
live_count-modify_same id f ((k, s) ∷ m) h = elim (Bool-cases (k == id)) [
  | inl e ↦ rw e (ap (λ (n : ℕ). n + live_count m) (h s))
  | inr e ↦ rw e (ap (λ (n : ℕ). live s + n) (live_count-modify_same id f m h))
]

pub get-behind :
    (k id : String) (t s : Session) (m : Map String Session)
    → get m k ≡ none
    → get m id ≡ some s
    → get ((k, t) ∷ m) id ≡ some s
unfolding get
get-behind k id t s m d h = elim (Bool-cases (k == id)) [
  | inl e ↦ absurd (ground (arith, d, h, ap (get m) ((eq_iff k id).0 e)))
  | inr e ↦ rw e h
]

reconcile_all-none :
    (panes : List PaneInfo) (j : String) (m : Map String Session)
    → get m j ≡ none
    → get (reconcile_all panes m) j ≡ none
unfolding reconcile_all get
reconcile_all-none panes j [] h = refl
reconcile_all-none panes j ((k, s) ∷ m) h = elim (Bool-cases (k == j)) [
  | inl e ↦ absurd (ground (arith, e, h))
  | inr e ↦ rw e (reconcile_all-none panes j m (ground (arith, e, h)))
]

live-reconcile_pane :
    (panes : List PaneInfo) (pane : Option String) (s : Session)
    → s.pane_id ≡ pane
    → live (reconcile_pane panes pane s) ≤ live s
live-reconcile_pane panes none s h = omega arith
live-reconcile_pane panes (some pane) s h =
    elim (Option-cases (find (λ (p : PaneInfo). p.pane_id == pane) panes)) [
      | inl e ↦ rw e (ground arith)
      | inr (p, e) ↦ rw e (omega arith)
    ]

pub reconcile_all-IsDistinct :
    (panes : List PaneInfo) (m : Map String Session)
    → IsDistinct m
    → IsDistinct (reconcile_all panes m)
unfolding reconcile_all
reconcile_all-IsDistinct panes [] h = tt
reconcile_all-IsDistinct panes ((k, s) ∷ m) h =
    (reconcile_all-none panes k m h.0, reconcile_all-IsDistinct panes m h.1)

pub live_count-reconcile_all :
    (panes : List PaneInfo) (m : Map String Session)
    → live_count (reconcile_all panes m) ≤ live_count m
unfolding reconcile_all live_count
live_count-reconcile_all panes [] = omega arith
live_count-reconcile_all panes ((k, s) ∷ m) =
    omega (arith, live-reconcile_pane panes s.pane_id s refl, live_count-reconcile_all panes m)
