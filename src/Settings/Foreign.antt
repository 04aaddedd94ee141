-- ===== src/Settings/Foreign.antt =====
-- What injection leaves to the other tools.
use slopd.Base.{
  String, Bool, true, false, not, Option, none, some, List, [], ◌∷◌, ◌≡◌, refl, sym, ap, ◌∙◌, arith,
  ◌==◌, eq_iff, inl, inr, Bool-cases, Option-cases, and_then, unwrap_or, contains, string_eq, subst,
}
use slopd.Base.Suffix.{first_token, strip_suffix-join}
use slopd.Json.Value.{Value, array, Values, empty, item, Fields, field_of, get_key, as_array}
use slopd.Settings.Command.{
  is_ours, is_stale, is_current, is_slopctl, entry_any, any_value, any_in, our_matcher, hook_suffix,
}
use slopd.Settings.Inject.{
  inject_entries, inject_event, inject_events, remove_entries, set_field, retain,
}
use slopd.Settings.Fields.{entries, field_of-set_field_self, retain-weaker}
use slopd.Settings.Settled.{inject_event-inv, inject_event_other, retain-push}

any_value_mono :
    (p q : Value → Bool) (vs : Values)
    → ((v : Value) → q v ≡ false → p v ≡ false)
    → any_value q vs ≡ false
    → any_value p vs ≡ false
unfolding any_value
any_value_mono p q empty h k = refl
any_value_mono p q (item v vs) h k = ground (arith, h v, any_value_mono p q vs h)

is_stale-is_ours :
    (slopctl event : String) (h : Value)
    → is_ours event h ≡ false
    → is_stale slopctl event h ≡ false
unfolding is_ours is_stale
is_stale-is_ours slopctl event h k = ground (arith, k)

entry_any_mono :
    (p q : Value → Bool) (v : Value)
    → ((h : Value) → q h ≡ false → p h ≡ false)
    → entry_any q v ≡ false
    → entry_any p v ≡ false
unfolding entry_any
entry_any_mono p q v h k = elim (Option-cases (and_then (get_key v "hooks") as_array)) [
  | inl e ↦ rw e
  | inr (hooks, e) ↦ rw e (any_value_mono p q hooks h (ap (any_in q) (sym e) ∙ k))
]

our_matcher-is_ours :
    (slopctl event : String)
    → is_slopctl (first_token slopctl) ≡ true
    → entry_any (is_ours event) (our_matcher slopctl event) ≡ true
unfolding entry_any is_ours
our_matcher-is_ours slopctl event h = ground (arith, strip_suffix-join slopctl (hook_suffix event))

abbrev pub stays : String → Value → Bool
stays event v = not (entry_any (is_ours event) v)

stale-goes :
    (slopctl event : String) (v : Value)
    → not (entry_any (is_stale slopctl event) v) ≡ false
    → stays event v ≡ false
stale-goes slopctl event v h = elim (Bool-cases (entry_any (is_ours event) v)) [
  | inl e ↦ rw e
  | inr e ↦
      let fresh =
        entry_any_mono (is_stale slopctl event) (is_ours event) v (is_stale-is_ours slopctl event)
          e in
      absurd (ground (arith, fresh))
]

-- Injection changes only entries that a removal takes away.
remove_entries-inject :
    (slopctl event : String) (vs : Values)
    → is_slopctl (first_token slopctl) ≡ true
    → remove_entries event (inject_entries slopctl event vs) ≡ remove_entries event vs
unfolding remove_entries inject_entries
remove_entries-inject slopctl event vs h =
    let keep : Value → Bool = λ v. not (entry_any (is_stale slopctl event) v) in
    let kept = retain-weaker keep (stays event) vs (stale-goes slopctl event) in
    elim (Bool-cases (any_value (entry_any (is_current slopctl event)) (retain keep vs))) [
      | inl e ↦ rw e kept
      | inr e ↦ rw e (
          retain-push (stays event) (our_matcher slopctl event) (retain keep vs)
          ∙ ground (arith, our_matcher-is_ours slopctl event h, kept))
    ]

entries-read :
    (o : Option Value) (vs : Values)
    → as_array (unwrap_or o (array empty)) ≡ some vs
    → entries o ≡ vs
unfolding as_array
entries-read none vs h = ground (arith, h)
entries-read (some v) vs h = rw h

inject_event-remove :
    (slopctl event other : String) (hooks after : Fields)
    → is_slopctl (first_token slopctl) ≡ true
    → inject_event slopctl event hooks ≡ some after
    → remove_entries other (entries (field_of after other))
      ≡ remove_entries other (entries (field_of hooks other))
unfolding inject_entries remove_entries as_array
inject_event-remove slopctl event other hooks after named h =
    let (vs, e, read) = inject_event-inv slopctl event hooks after h in
    elim (Bool-cases (event == other)) [
      | inl same ↦
          subst
            (λ o.
              remove_entries o (entries (field_of after o))
              ≡ remove_entries o (entries (field_of hooks o)))
            ((eq_iff event other).0 same)
            (ap (λ o. remove_entries event (entries o)) (written vs e)
              ∙ remove_entries-inject slopctl event vs named
              ∙ ap (remove_entries event) (sym (entries-read (field_of hooks event) vs read)))
      | inr n ↦
          ap (λ o. remove_entries other (entries o))
            (inject_event_other slopctl event other hooks after h n)
    ]
  where
    written :
        (vs : Values)
        → after ≡ set_field event (array (inject_entries slopctl event vs)) hooks
        → field_of after event ≡ some (array (inject_entries slopctl event vs))
    written vs e =
        ap (λ fs. field_of fs event) e
        ∙ field_of-set_field_self event (array (inject_entries slopctl event vs)) hooks

pub inject_events-remove :
    (slopctl other : String) (events : List String) (hooks after : Fields)
    → is_slopctl (first_token slopctl) ≡ true
    → inject_events slopctl events hooks ≡ some after
    → remove_entries other (entries (field_of after other))
      ≡ remove_entries other (entries (field_of hooks other))
unfolding inject_events
inject_events-remove slopctl other [] hooks after named h =
    ap (λ fs. remove_entries other (entries (field_of fs other))) (ground (arith, h))
inject_events-remove slopctl other (event ∷ events) hooks after named h =
    elim (Option-cases (inject_event slopctl event hooks)) [
      | inl e ↦ absurd (ground (arith, e))
      | inr (mid, e) ↦
          inject_events-remove slopctl other events mid after named (ground (arith, e))
          ∙ inject_event-remove slopctl event other hooks mid named e
    ]

pub inject_events_other :
    (slopctl other : String) (events : List String) (hooks after : Fields)
    → contains events other ≡ false
    → inject_events slopctl events hooks ≡ some after
    → field_of after other ≡ field_of hooks other
unfolding inject_events contains
inject_events_other slopctl other [] hooks after n h =
    ap (λ fs. field_of fs other) (ground (arith, h))
inject_events_other slopctl other (event ∷ events) hooks after n h =
    elim (Option-cases (inject_event slopctl event hooks)) [
      | inl e ↦ absurd (ground (arith, e))
      | inr (mid, e) ↦
          inject_events_other slopctl other events mid after (ground arith) (ground (arith, e))
          ∙ inject_event_other slopctl event other hooks mid e (ground arith)
    ]
