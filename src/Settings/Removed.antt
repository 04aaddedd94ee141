-- ===== src/Settings/Removed.antt =====
-- What injection leaves to the other tools, and what removal takes back.
use slopd.Base.{
  String, Bool, true, false, Option, none, some, List, [], ◌∷◌, ◌≡◌, refl, sym, ap, ◌∙◌, arith,
  ◌==◌, eq_iff, inl, inr, Bool-cases, and_then, unwrap_or, contains, string_eq, subst,
  if◌then◌else◌,
}
use slopd.Base.Suffix.{first_token}
use slopd.Json.Value.{
  Value, array, object, Values, empty, Fields, no_fields, field_of, get_key, as_array,
}
use slopd.Settings.Command.{is_slopctl}
use slopd.Settings.Inject.{
  inject_hook_events, remove_entries, remove_events, remove_hook_events, as_object, remove_at,
  remove_from,
}
use slopd.Settings.Fields.{
  entries, hooks_of, entries_at, field_of-set_field, field_of-set_field_self, retain_twice,
}
use slopd.Settings.Idempotent.{Injected, inject_hook_events-Injected, hooks_after}
use slopd.Settings.Foreign.{stays, inject_events-remove, inject_events_other}

remove_at_same :
    (event : String) (hooks : Fields) (o : Option Values)
    → and_then (field_of hooks event) as_array ≡ o
    → entries (field_of (remove_at event hooks o) event) ≡ remove_entries event (unwrap_or o empty)
unfolding remove_entries as_array
remove_at_same event hooks none e = ap (λ o. unwrap_or o empty) e
remove_at_same event hooks (some vs) e =
    ap entries (field_of-set_field_self event (array (remove_entries event vs)) hooks)

remove_at_other :
    (event other : String) (hooks : Fields) (o : Option Values)
    → (event == other) ≡ false
    → field_of (remove_at event hooks o) other ≡ field_of hooks other
remove_at_other event other hooks none n = refl
remove_at_other event other hooks (some vs) n =
    field_of-set_field event other (array (remove_entries event vs)) hooks ∙ rw n

remove_entries_twice :
    (event : String) (vs : Values)
    → remove_entries event (remove_entries event vs) ≡ remove_entries event vs
unfolding remove_entries
remove_entries_twice event vs = retain_twice (stays event) vs

-- What a removal leaves under an event.
entries-remove_events :
    (other : String) (events : List String) (hooks : Fields)
    → entries (field_of (remove_events events hooks) other) ≡ (
        if contains events other
        then remove_entries other (entries (field_of hooks other))
        else entries (field_of hooks other))
unfolding remove_events contains
entries-remove_events other [] hooks = refl
entries-remove_events other (event ∷ events) hooks =
    entries-remove_events other events
      (remove_at event hooks (and_then (field_of hooks event) as_array))
    ∙ elim (Bool-cases (event == other)) [
      | inl same ↦ rw same (
          subst
            (λ o.
              (if contains events o
                then remove_entries o (
                    entries (
                      field_of (remove_at event hooks (and_then (field_of hooks event) as_array))
                        o))
                else entries
                    (field_of (remove_at event hooks (and_then (field_of hooks event) as_array)) o))
              ≡ remove_entries o (entries (field_of hooks o)))
            ((eq_iff event other).0 same)
            (ground (
              arith,
              remove_at_same event hooks (and_then (field_of hooks event) as_array) refl,
              remove_entries_twice event (entries (field_of hooks event)),
            )))
      | inr n ↦ rw n (
          ap (λ o. if contains events other then remove_entries other (entries o) else entries o)
            (remove_at_other event other hooks (and_then (field_of hooks event) as_array) n))
    ]

remove_events-no_fields : (events : List String) → remove_events events no_fields ≡ no_fields
unfolding remove_events
remove_events-no_fields [] = refl
remove_events-no_fields (event ∷ events) = remove_events-no_fields events

hooks_of-remove_from :
    (settings : Value) (events : List String) (o : Option Fields)
    → and_then (get_key settings "hooks") as_object ≡ o
    → hooks_of (remove_from settings events o) ≡ remove_events events (unwrap_or o no_fields)
unfolding get_key as_object
hooks_of-remove_from settings events none e =
    ap (λ o. unwrap_or o no_fields) e ∙ sym (remove_events-no_fields events)
hooks_of-remove_from (object fs) events (some hooks) e =
    ap (λ o. unwrap_or (and_then o as_object) no_fields)
      (field_of-set_field_self "hooks" (object (remove_events events hooks)) fs)
hooks_of-remove_from Value.null events (some hooks) e = cc
hooks_of-remove_from (Value.bool b) events (some hooks) e = cc
hooks_of-remove_from (Value.number n) events (some hooks) e = cc
hooks_of-remove_from (Value.other_number t) events (some hooks) e = cc
hooks_of-remove_from (Value.string s) events (some hooks) e = cc
hooks_of-remove_from (array vs) events (some hooks) e = cc

hooks_of-remove :
    (settings : Value) (events : List String)
    → hooks_of (remove_hook_events settings events) ≡ remove_events events (hooks_of settings)
unfolding remove_hook_events
hooks_of-remove settings events =
    hooks_of-remove_from settings events (and_then (get_key settings "hooks") as_object) refl

hooks_read :
    (o : Option Value) (hooks : Fields)
    → as_object (unwrap_or o (object no_fields)) ≡ some hooks
    → unwrap_or (and_then o as_object) no_fields ≡ hooks
unfolding as_object
hooks_read none hooks h = ground (arith, h)
hooks_read (some v) hooks h = rw h

module _ (slopctl : String) (events : List String) {settings after : Value}
    (i : Injected slopctl events settings after) where
  hooks_before : hooks_of settings ≡ i.hooks
  unfolding get_key
  hooks_before = ap hooks_of i.is_object ∙ hooks_read (field_of i.fields "hooks") i.hooks i.is_read

  entries_removed :
      (event : String)
      → is_slopctl (first_token slopctl) ≡ true
      → entries (field_of (remove_events events i.written) event)
        ≡ entries (field_of (remove_events events i.hooks) event)
  entries_removed event named =
      entries-remove_events event events i.written
      ∙ both (contains events event) refl
      ∙ sym (entries-remove_events event events i.hooks)
    where
      both :
          (b : Bool)
          → contains events event ≡ b
          → (if b
              then remove_entries event (entries (field_of i.written event))
              else entries (field_of i.written event))
            ≡ (if b
                then remove_entries event (entries (field_of i.hooks event))
                else entries (field_of i.hooks event))
      both true e = inject_events-remove slopctl event events i.hooks i.written named i.is_injected
      both false e =
          ap entries (inject_events_other slopctl event events i.hooks i.written e i.is_injected)

-- The hooks that an injection added are taken back by a removal: under every event, injection and
-- then removal leave the entries that removal alone leaves, in their order, so that injection loses no
-- entry that is free of slopctl's hooks. The program of the injected command has to be called slopctl.
pub remove-inject_hook_events :
    (settings after : Value) (slopctl event : String) (events : List String)
    → is_slopctl (first_token slopctl) ≡ true
    → inject_hook_events settings slopctl events ≡ some after
    → entries_at event (remove_hook_events after events)
      ≡ entries_at event (remove_hook_events settings events)
remove-inject_hook_events settings after slopctl event events named h =
    let i = inject_hook_events-Injected settings after slopctl events h in
    ap (λ fs. entries (field_of fs event))
      (hooks_of-remove after events ∙ ap (remove_events events) (hooks_after i))
    ∙ entries_removed slopctl events i event named
    ∙ ap (λ fs. entries (field_of fs event))
        (sym (
          hooks_of-remove settings events
          ∙ ap (remove_events events) (hooks_before slopctl events i)))
