-- ===== src/Settings/Idempotent.antt =====
-- Injecting the hooks of slopctl into a settings file that already has them.
use slopd.Base.{
  String, Bool, true, false, not, some, List, [], ◌∷◌, ◌≡◌, refl, sym, ap, ◌∙◌, arith, ◌==◌, eq_iff,
  inl, inr, Bool-cases, Option-cases, All, and_then, unwrap_or, map_option, subst, contains,
  string_eq,
}
use slopd.Json.Value.{
  Value, array, object, Values, empty, item, Fields, no_fields, field_of, get_key, as_array,
}
use slopd.Settings.Command.{is_stale, is_current, entry_any, any_value, our_matcher}
use slopd.Settings.Inject.{
  inject_entries, inject_events, inject_hook_events, as_object, set_field, retain, with_hooks,
}
use slopd.Settings.Fields.{entries, hooks_of, entries_at, field_of-set_field_self, set_field_same}
use slopd.Settings.Settled.{
  our_matcher-is_current, our_matcher-is_stale, any_value-push, IsSettled, inject_events_settled,
  inject_events-IsSettled,
}

pub as_object-eq : (v : Value) (fs : Fields) → as_object v ≡ some fs → v ≡ object fs
unfolding as_object
as_object-eq (object gs) fs h = ground (arith, h)
as_object-eq Value.null fs h = cc
as_object-eq (Value.bool b) fs h = cc
as_object-eq (Value.number n) fs h = cc
as_object-eq (Value.other_number t) fs h = cc
as_object-eq (Value.string s) fs h = cc
as_object-eq (array vs) fs h = cc

-- What an injection that succeeds did: the hooks that it read and the hooks that it wrote.
pub record Injected (slopctl : String) (events : List String) (settings after : Value)
    : Type 0 where
  pub fields : Fields
  pub hooks : Fields
  pub written : Fields
  pub is_object : settings ≡ object fields
  pub is_read : as_object (unwrap_or (field_of fields "hooks") (object no_fields)) ≡ some hooks
  pub is_injected : inject_events slopctl events hooks ≡ some written
  pub is_written : after ≡ object (set_field "hooks" (object written) fields)

pub inject_hook_events-Injected :
    (settings after : Value) (slopctl : String) (events : List String)
    → inject_hook_events settings slopctl events ≡ some after
    → Injected slopctl events settings after
unfolding inject_hook_events
inject_hook_events-Injected settings after slopctl events h =
    elim (Option-cases (as_object settings)) [
      | inl e ↦ absurd (ground (arith, e))
      | inr (fs, e) ↦
          elim (Option-cases (as_object (unwrap_or (field_of fs "hooks") (object no_fields)))) [
            | inl f ↦ absurd (ground (arith, e, f))
            | inr (hooks, f) ↦ elim (Option-cases (inject_events slopctl events hooks)) [
              | inl g ↦ absurd (ground (arith, e, f, g))
              | inr (written, g) ↦ record {
                fields = fs;
                hooks = hooks;
                written = written;
                is_object = as_object-eq settings fs e;
                is_read = f;
                is_injected = g;
                is_written = ground (arith, e, f, g);
              }
            ]
          ]
    ]

-- A second injection of the same hooks into a settings file leaves it as the first one wrote it.
pub inject_hook_events_twice :
    (settings after : Value) (slopctl : String) (events : List String)
    → inject_hook_events settings slopctl events ≡ some after
    → inject_hook_events after slopctl events ≡ some after
unfolding inject_hook_events
inject_hook_events_twice settings after slopctl events h =
    let i = inject_hook_events-Injected settings after slopctl events h in
    let fs = set_field "hooks" (object i.written) i.fields in
    let read : field_of fs "hooks" ≡ some (object i.written) =
      field_of-set_field_self "hooks" (object i.written) i.fields in
    subst (λ a. inject_hook_events a slopctl events ≡ some a) (sym i.is_written)
      (ap
          (λ o.
            map_option (with_hooks fs) (
              and_then (as_object (unwrap_or o (object no_fields))) (inject_events slopctl events)))
          read
        ∙ ap (map_option (with_hooks fs)) (
            inject_events_settled slopctl events i.written
              (inject_events-IsSettled slopctl events i.hooks i.written i.is_injected))
        ∙ ap (λ gs. some (object gs)) (set_field_same "hooks" (object i.written) fs read))

any_value-retain :
    (p : Value → Bool) (vs : Values) → any_value p (retain (λ v. not (p v)) vs) ≡ false
unfolding any_value retain
any_value-retain p empty = refl
any_value-retain p (item v vs) = ground (arith, any_value-retain p vs)

inject_entries-IsCurrent :
    (slopctl event : String) (vs : Values)
    → (any_value (entry_any (is_current slopctl event)) (inject_entries slopctl event vs) ≡ true)
      × (any_value (entry_any (is_stale slopctl event)) (inject_entries slopctl event vs) ≡ false)
unfolding inject_entries
inject_entries-IsCurrent slopctl event vs =
    let stale : Value → Bool = entry_any (is_stale slopctl event) in
    let current : Value → Bool = entry_any (is_current slopctl event) in
    let kept = retain (λ v. not (stale v)) vs in
    let added = our_matcher slopctl event in
    elim (Bool-cases (any_value current kept)) [
      | inl e ↦ rw e (e, any_value-retain stale vs)
      | inr e ↦ rw e (
        any_value-push current added kept ∙ ground (arith, our_matcher-is_current slopctl event),
        any_value-push stale added kept
            ∙ ground (arith, any_value-retain stale vs, our_matcher-is_stale slopctl event),
      )
    ]

settled-IsCurrent :
    (slopctl event : String) (hooks : Fields)
    → IsSettled slopctl event hooks
    → (any_value (entry_any (is_current slopctl event)) (entries (field_of hooks event)) ≡ true)
      × (any_value (entry_any (is_stale slopctl event)) (entries (field_of hooks event)) ≡ false)
unfolding as_array
settled-IsCurrent slopctl event hooks (vs, e, k) = rw e (
    subst
      (λ ws.
        (any_value (entry_any (is_current slopctl event)) ws ≡ true)
        × (any_value (entry_any (is_stale slopctl event)) ws ≡ false))
      k (inject_entries-IsCurrent slopctl event vs))

All-contains :
    (P : String → Type 0) (events : List String) (event : String)
    → contains events event ≡ true
    → All P events
    → P event
unfolding contains
All-contains P [] event h k = absurd (ground (arith, h))
All-contains P (e ∷ events) event h k = elim (Bool-cases (e == event)) [
  | inl same ↦ subst P ((eq_iff e event).0 same) k.0
  | inr n ↦ All-contains P events event (ground arith) k.1
]

pub hooks_after :
    {slopctl : String} {events : List String} {settings after : Value}
    (i : Injected slopctl events settings after)
    → hooks_of after ≡ i.written
unfolding get_key as_object
hooks_after i =
    ap hooks_of i.is_written
    ∙ ap (λ o. unwrap_or (and_then o as_object) no_fields)
        (field_of-set_field_self "hooks" (object i.written) i.fields)

-- After an injection, under each of its events a hook runs the current command, and no hook runs
-- slopctl for the event by another command, whatever the entries were before.
pub inject_hook_events-IsCurrent :
    (settings after : Value) (slopctl event : String) (events : List String)
    → contains events event ≡ true
    → inject_hook_events settings slopctl events ≡ some after
    → (any_value (entry_any (is_current slopctl event)) (entries_at event after) ≡ true)
      × (any_value (entry_any (is_stale slopctl event)) (entries_at event after) ≡ false)
inject_hook_events-IsCurrent settings after slopctl event events m h =
    let i = inject_hook_events-Injected settings after slopctl events h in
    subst
      (λ hooks.
        (any_value (entry_any (is_current slopctl event)) (entries (field_of hooks event)) ≡ true)
        × (any_value (entry_any (is_stale slopctl event)) (entries (field_of hooks event)) ≡ false))
      (sym (hooks_after i))
      (settled-IsCurrent slopctl event i.written (
        All-contains (λ e. IsSettled slopctl e i.written) events event m
          (inject_events-IsSettled slopctl events i.hooks i.written i.is_injected)))
