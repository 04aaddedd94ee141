-- ===== src/Settings/Settled.antt =====
-- Events whose entries another injection leaves as they are.
use slopd.Base.{
  String, Bool, true, false, not, ◌||◌, some, List, [], ◌∷◌, ◌≡◌, refl, ap, ◌∙◌, arith, ◌==◌,
  eq_iff, eq_refl, inl, inr, Bool-cases, Option-cases, All, unwrap_or, map_option, subst,
  if◌then◌else◌,
}
use slopd.Json.Value.{Value, array, Values, empty, item, Fields, field_of, as_array}
use slopd.Settings.Command.{is_stale, is_current, entry_any, any_value, our_matcher, hook_command}
use slopd.Settings.Inject.{inject_entries, inject_event, inject_events, set_field, retain, push}
use slopd.Settings.Fields.{
  field_of-set_field, field_of-set_field_self, set_field_same, retain_twice,
}

-- The entry that is added runs the current command, and no other.
pub our_matcher-is_current :
    (slopctl event : String)
    → entry_any (is_current slopctl event) (our_matcher slopctl event) ≡ true
unfolding entry_any is_current
our_matcher-is_current slopctl event = ground (arith, eq_refl (hook_command slopctl event))

pub our_matcher-is_stale :
    (slopctl event : String)
    → entry_any (is_stale slopctl event) (our_matcher slopctl event) ≡ false
unfolding entry_any is_stale
our_matcher-is_stale slopctl event = ground (arith, eq_refl (hook_command slopctl event))

pub any_value-push :
    (p : Value → Bool) (w : Value) (vs : Values) → any_value p (push w vs) ≡ (any_value p vs || p w)
unfolding any_value push
any_value-push p w empty = ground arith
any_value-push p w (item v vs) = ground (arith, any_value-push p w vs)

pub retain-push :
    (p : Value → Bool) (w : Value) (vs : Values)
    → retain p (push w vs) ≡ (if p w then push w (retain p vs) else retain p vs)
unfolding retain push
retain-push p w empty = refl
retain-push p w (item v vs) = elim (Bool-cases (p v)) [
  | inl e ↦ rw e (ground (arith, retain-push p w vs))
  | inr e ↦ rw e (retain-push p w vs)
]

inject_entries-kept :
    (slopctl event : String) (vs : Values)
    → any_value (entry_any (is_current slopctl event)) vs ≡ true
    → retain (λ v. not (entry_any (is_stale slopctl event) v)) vs ≡ vs
    → inject_entries slopctl event vs ≡ vs
unfolding inject_entries
inject_entries-kept slopctl event vs present fresh = rw fresh (rw present)

inject_entries_twice :
    (slopctl event : String) (vs : Values)
    → inject_entries slopctl event (inject_entries slopctl event vs)
      ≡ inject_entries slopctl event vs
unfolding inject_entries
inject_entries_twice slopctl event vs =
    let keep : Value → Bool = λ v. not (entry_any (is_stale slopctl event) v) in
    let current : Value → Bool = entry_any (is_current slopctl event) in
    elim (Bool-cases (any_value current (retain keep vs))) [
      | inl e ↦ rw e (inject_entries-kept slopctl event (retain keep vs) e (retain_twice keep vs))
      | inr e ↦ rw e (
          inject_entries-kept slopctl event (push (our_matcher slopctl event) (retain keep vs))
            (any_value-push current (our_matcher slopctl event) (retain keep vs)
              ∙ ground (arith, our_matcher-is_current slopctl event))
            (retain-push keep (our_matcher slopctl event) (retain keep vs)
              ∙ rw (our_matcher-is_stale slopctl event)
                  (ap (push (our_matcher slopctl event)) (retain_twice keep vs))))
    ]

-- The entries of the event are such that another injection leaves them.
abbrev pub IsSettled : String → String → Fields → Type 0
IsSettled slopctl event hooks =
    (vs : Values) × (field_of hooks event ≡ some (array vs))
    × (inject_entries slopctl event vs ≡ vs)

pub inject_event-inv :
    (slopctl event : String) (hooks after : Fields)
    → inject_event slopctl event hooks ≡ some after
    → (vs : Values) × (after ≡ set_field event (array (inject_entries slopctl event vs)) hooks)
      × (as_array (unwrap_or (field_of hooks event) (array empty)) ≡ some vs)
unfolding inject_event
inject_event-inv slopctl event hooks after h =
    elim (Option-cases (as_array (unwrap_or (field_of hooks event) (array empty)))) [
      | inl e ↦ absurd (ground (arith, e))
      | inr (vs, e) ↦ (vs, ground (arith, e), e)
    ]

inject_event-IsSettled :
    (slopctl event : String) (hooks after : Fields)
    → inject_event slopctl event hooks ≡ some after
    → IsSettled slopctl event after
inject_event-IsSettled slopctl event hooks after h =
    let (vs, e, read) = inject_event-inv slopctl event hooks after h in
    (
      inject_entries slopctl event vs,
      ap (λ fs. field_of fs event) e
          ∙ field_of-set_field_self event (array (inject_entries slopctl event vs)) hooks,
      inject_entries_twice slopctl event vs,
    )

pub inject_event_other :
    (slopctl event other : String) (hooks after : Fields)
    → inject_event slopctl event hooks ≡ some after
    → (event == other) ≡ false
    → field_of after other ≡ field_of hooks other
inject_event_other slopctl event other hooks after h n =
    let (vs, e, read) = inject_event-inv slopctl event hooks after h in
    rw e (field_of-set_field event other _ hooks ∙ rw n)

keeps-IsSettled :
    (slopctl event other : String) (hooks after : Fields)
    → inject_event slopctl event hooks ≡ some after
    → IsSettled slopctl other hooks
    → IsSettled slopctl other after
keeps-IsSettled slopctl event other hooks after h (vs, e, k) = elim (Bool-cases (event == other)) [
  | inl same ↦
      subst (λ o. IsSettled slopctl o after) ((eq_iff event other).0 same)
        (inject_event-IsSettled slopctl event hooks after h)
  | inr n ↦ (vs, inject_event_other slopctl event other hooks after h n ∙ e, k)
]

inject_event_settled :
    (slopctl event : String) (hooks : Fields)
    → IsSettled slopctl event hooks
    → inject_event slopctl event hooks ≡ some hooks
unfolding inject_event as_array
inject_event_settled slopctl event hooks (vs, e, k) =
    ap
      (λ o.
        map_option (λ ws. set_field event (array (inject_entries slopctl event ws)) hooks)
          (as_array (unwrap_or o (array empty))))
      e
    ∙ ap some
        (ap (λ ws. set_field event (array ws) hooks) k ∙ set_field_same event (array vs) hooks e)

pub inject_events_settled :
    (slopctl : String) (events : List String) (hooks : Fields)
    → All (λ event. IsSettled slopctl event hooks) events
    → inject_events slopctl events hooks ≡ some hooks
unfolding inject_events
inject_events_settled slopctl [] hooks h = refl
inject_events_settled slopctl (event ∷ events) hooks h =
    rw (inject_event_settled slopctl event hooks h.0)
      (inject_events_settled slopctl events hooks h.1)

inject_events-keeps :
    (slopctl other : String) (events : List String) (hooks after : Fields)
    → inject_events slopctl events hooks ≡ some after
    → IsSettled slopctl other hooks
    → IsSettled slopctl other after
unfolding inject_events
inject_events-keeps slopctl other [] hooks after h s =
    subst (λ o. IsSettled slopctl other o) (ground (arith, h)) s
inject_events-keeps slopctl other (event ∷ events) hooks after h s =
    elim (Option-cases (inject_event slopctl event hooks)) [
      | inl e ↦ absurd (ground (arith, e))
      | inr (mid, e) ↦
          inject_events-keeps slopctl other events mid after (ground (arith, e))
            (keeps-IsSettled slopctl event other hooks mid e s)
    ]

pub inject_events-IsSettled :
    (slopctl : String) (events : List String) (hooks after : Fields)
    → inject_events slopctl events hooks ≡ some after
    → All (λ event. IsSettled slopctl event after) events
unfolding inject_events
inject_events-IsSettled slopctl [] hooks after h = tt
inject_events-IsSettled slopctl (event ∷ events) hooks after h =
    elim (Option-cases (inject_event slopctl event hooks)) [
      | inl e ↦ absurd (ground (arith, e))
      | inr (mid, e) ↦
          let rest : inject_events slopctl events mid ≡ some after = ground (arith, e) in
          (
            inject_events-keeps slopctl event events mid after rest
                (inject_event-IsSettled slopctl event hooks mid e),
            inject_events-IsSettled slopctl events mid after rest,
          )
    ]
