-- ===== src/Machine/Changes.antt =====
-- slopd/src/main.rs, `set_pane_detailed_state_inner`: what a subscriber of its records knows.
use slopd.Base.{
  Bool, true, false, Option, none, some, List, [], ◌∷◌, ◌++◌, ◌≡◌, ◌≢◌, subst, refl, sym, ap, ◌∙◌,
  Bool-cases, inl, inr, if◌then◌else◌, string_eq,
}
use slopd.Pane.State.{
  PaneState, PaneDetailedState, to_simple, simple_eq, detailed_eq, simple_eq_iff, detailed_eq_iff,
}
use slopd.Machine.Update

-- The state that the last `StateChange`, and the last `DetailedStateChange`, of a log names.
unfoldable pub seen_state : PaneState → List Update.Change → PaneState
seen_state s [] = s
seen_state s (Update.state_change t previous ∷ cs) = seen_state t cs
seen_state s (Update.detailed_state_change d previous ∷ cs) = seen_state s cs

unfoldable pub seen_detailed_state : PaneDetailedState → List Update.Change → PaneDetailedState
seen_detailed_state s [] = s
seen_detailed_state s (Update.state_change t previous ∷ cs) = seen_detailed_state s cs
seen_detailed_state s (Update.detailed_state_change d previous ∷ cs) = seen_detailed_state d cs

seen_state-append :
    (s : PaneState) (xs ys : List Update.Change)
    → seen_state s (xs ++ ys) ≡ seen_state (seen_state s xs) ys
unfolding seen_state
seen_state-append s [] ys = refl
seen_state-append s (Update.state_change t p ∷ xs) ys = seen_state-append t xs ys
seen_state-append s (Update.detailed_state_change d p ∷ xs) ys = seen_state-append s xs ys

seen_detailed_state-append :
    (s : PaneDetailedState) (xs ys : List Update.Change)
    → seen_detailed_state s (xs ++ ys) ≡ seen_detailed_state (seen_detailed_state s xs) ys
unfolding seen_detailed_state
seen_detailed_state-append s [] ys = refl
seen_detailed_state-append s (Update.state_change t p ∷ xs) ys = seen_detailed_state-append s xs ys
seen_detailed_state-append s (Update.detailed_state_change d p ∷ xs) ys =
    seen_detailed_state-append d xs ys

-- A transition of a transcript tailer or a driver: what it read, and what it wants.
pub record Transition : Type 0 where
  pub detailed : PaneDetailedState
  pub previous : PaneDetailedState
  pub guard : Option Update.GrokTerminalGuard
  pub state_ok : Bool
  pub detailed_ok : Bool

unfoldable pub take_transition : Transition → Update.Tracked → Update.Tracked
unfolding Update.set_pane_detailed_state_inner
take_transition t =
    Update.set_pane_detailed_state_inner t.detailed (some t.previous) true t.guard t.state_ok
      t.detailed_ok

unfoldable pub take_transitions : List Transition → Update.Tracked → Update.Tracked
unfolding take_transition
take_transitions [] s = s
take_transitions (t ∷ ts) s = take_transitions ts (take_transition t s)

-- The subscriber started at `d` and has read what was sent.
abbrev pub IsFollowed : PaneDetailedState → Update.Tracked → Type 0
IsFollowed d s =
    (seen_state (to_simple d) s.sent ≡ to_simple s.detailed_state)
    × (seen_detailed_state d s.sent ≡ s.detailed_state)

announced-IsFollowed :
    (d e : PaneDetailedState)
    → (seen_state (to_simple d) (Update.announced e (some d)) ≡ to_simple e)
      × (seen_detailed_state d (Update.announced e (some d)) ≡ e)
unfolding seen_state seen_detailed_state
announced-IsFollowed d e = elim (Bool-cases (simple_eq (to_simple d) (to_simple e))) [
  | inl h ↦ rw h ((simple_eq_iff (to_simple d) (to_simple e)).0 h, refl)
  | inr h ↦ rw h (refl, refl)
]

set_unless_stale-IsFollowed :
    (d e p : PaneDetailedState) (state_ok detailed_ok : Bool) (s : Update.Tracked)
    → IsFollowed d s
    → IsFollowed d (Update.set_unless_stale e (some p) true state_ok detailed_ok s)
set_unless_stale-IsFollowed d e p state_ok detailed_ok s h =
    elim (Bool-cases (detailed_eq s.detailed_state p)) [
      | inr f ↦ rw f h
      | inl f ↦ rw f (
        seen_state-append (to_simple d) s.sent (Update.announced e (some p))
            ∙ (ap (λ x. seen_state x (Update.announced e (some p)))
                  (h.0 ∙ ap to_simple ((detailed_eq_iff s.detailed_state p).0 f))
                ∙ (announced-IsFollowed p e).0),
        seen_detailed_state-append d s.sent (Update.announced e (some p))
            ∙ (ap (λ x. seen_detailed_state x (Update.announced e (some p)))
                  (h.1 ∙ (detailed_eq_iff s.detailed_state p).0 f)
                ∙ (announced-IsFollowed p e).1),
      )
    ]

guarded-IsFollowed :
    (d e p : PaneDetailedState) (g : Option Update.GrokTerminalGuard) (state_ok detailed_ok : Bool)
    (s : Update.Tracked)
    → IsFollowed d s
    → IsFollowed d (Update.set_pane_detailed_state_inner e (some p) true g state_ok detailed_ok s)
unfolding Update.set_pane_detailed_state_inner
guarded-IsFollowed d e p none state_ok detailed_ok s h =
    set_unless_stale-IsFollowed d e p state_ok detailed_ok s h
guarded-IsFollowed d e p (some g) state_ok detailed_ok s h =
    elim (Bool-cases (Update.guard_matches g s)) [
      | inr f ↦ rw f h
      | inl f ↦ rw f (
          set_unless_stale-IsFollowed d e p state_ok detailed_ok
            (record s { grok_active_prompt_id = none; grok_unbound_prompt_active = false }) h)
    ]

take_transition-IsFollowed :
    (d : PaneDetailedState) (t : Transition) (s : Update.Tracked)
    → IsFollowed d s
    → IsFollowed d (take_transition t s)
unfolding take_transition
take_transition-IsFollowed d t s h =
    guarded-IsFollowed d t.detailed t.previous t.guard t.state_ok t.detailed_ok s h

-- Whatever the tailers and the drivers of a pane do, in whatever order their transitions are
-- applied and however many of them are stale, a subscriber that knew the pane's states and read
-- every change record since knows them still: the last `StateChange` and the last
-- `DetailedStateChange` name the current ones.
pub take_transitions-IsFollowed :
    (d : PaneDetailedState) (ts : List Transition) (s : Update.Tracked)
    → IsFollowed d s
    → IsFollowed d (take_transitions ts s)
unfolding take_transitions
take_transitions-IsFollowed d [] s h = h
take_transitions-IsFollowed d (t ∷ ts) s h =
    take_transitions-IsFollowed d ts (take_transition t s) (take_transition-IsFollowed d t s h)

-- A hook is applied without the check for staleness. If the state that it read before the mutex
-- shows the same simple state as the one it sets, but the pane moved to another simple state in
-- between, no `StateChange` is sent: a subscriber that knew the pane's state no longer does.
pub hook_race-IsFollowed :
    (d e p : PaneDetailedState) (s : Update.Tracked)
    → IsFollowed d s
    → to_simple p ≡ to_simple e
    → to_simple s.detailed_state ≢ to_simple e
    → ¬ IsFollowed d (Update.set_hook_detailed_state e (some p) true true s)
unfolding Update.set_hook_detailed_state Update.set_pane_detailed_state_inner seen_state
hook_race-IsFollowed d e p s h same moved k =
    let silent : simple_eq (to_simple p) (to_simple e) ≡ true =
      (simple_eq_iff (to_simple p) (to_simple e)).1 same in
    moved (
      sym h.0
      ∙ (sym (seen_state-append (to_simple d) s.sent (Update.detailed_state_change e (some p) ∷ []))
          ∙ subst
              (λ b.
                seen_state (to_simple d) (
                  s.sent
                  ++ (if b
                      then Update.detailed_state_change e (some p) ∷ []
                      else Update.state_change (to_simple e) (some (to_simple p))
                        ∷ Update.detailed_state_change e (some p)
                        ∷ []))
                ≡ to_simple e)
              silent k.0))
