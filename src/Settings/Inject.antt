-- ===== src/Settings/Inject.antt =====
-- libslop/src/lib.rs: `inject_hook_events` and `remove_hook_events`. A failed `expect` is `none`.
use slopd.Base.{
  String, Bool, not, Option, none, some, List, [], ◌∷◌, unwrap_or, and_then, map_option, is_some,
  if◌then◌else◌, ◌==◌, str_lt,
}
use slopd.Pane.Agent.{Backend}
use slopd.Json.Value.{
  Value, array, object, Values, empty, item, Fields, no_fields, field, field_of, get_key, as_array,
}
use slopd.Settings.Command.{
  hook_events, is_ours, is_stale, is_current, any_value, entry_any, our_matcher,
}

-- A key's value is replaced where it stands.
unfoldable pub replace_field : String → Value → Fields → Fields
replace_field k v no_fields = no_fields
replace_field k v (field j w fs) =
    let rest = replace_field k v fs in if j == k then field k v fs else field j w rest

-- A new key is inserted in its place: the keys of serde_json's `Map` are sorted.
unfoldable pub insert_field : String → Value → Fields → Fields
unfolding str_lt
insert_field k v no_fields = field k v no_fields
insert_field k v (field j w fs) =
    let rest = insert_field k v fs in
    if str_lt k j then field k v (field j w fs) else field j w rest

-- Writing through the reference that `entry(k).or_insert_with(…)` or `get_mut(k)` gives.
unfoldable pub set_field : String → Value → Fields → Fields
unfolding replace_field insert_field field_of
set_field k v fs = if is_some (field_of fs k) then replace_field k v fs else insert_field k v fs

unfoldable pub as_object : Value → Option Fields
as_object (object fs) = some fs
as_object _ = none

-- `Vec::retain` and `Vec::push`.
unfoldable pub retain : (Value → Bool) → Values → Values
retain p empty = empty
retain p (item v vs) = let rest = retain p vs in if p v then item v rest else rest

unfoldable pub push : Value → Values → Values
push w empty = item w empty
push w (item v vs) = item v (push w vs)

-- The body of the loop of `inject_hook_events` on the entries of one event.
unfoldable pub inject_entries : String → String → Values → Values
unfolding entry_any is_stale is_current retain push any_value
inject_entries slopctl event entries =
    let kept = retain (λ v. not (entry_any (is_stale slopctl event) v)) entries in
    if any_value (entry_any (is_current slopctl event)) kept
    then kept
    else push (our_matcher slopctl event) kept

-- `entry(event).or_insert_with(…)` in the place of the entries.
unfoldable pub inject_event : String → String → Fields → Option Fields
unfolding inject_entries field_of set_field as_array
inject_event slopctl event hooks =
    map_option (λ vs. set_field event (array (inject_entries slopctl event vs)) hooks)
      (as_array (unwrap_or (field_of hooks event) (array empty)))

unfoldable pub inject_events : String → List String → Fields → Option Fields
unfolding inject_event
inject_events slopctl [] hooks = some hooks
inject_events slopctl (event ∷ events) hooks =
    and_then (inject_event slopctl event hooks) (inject_events slopctl events)

abbrev pub with_hooks : Fields → Fields → Value
with_hooks settings hooks = object (set_field "hooks" (object hooks) settings)

abbrev inject_into : String → List String → Fields → Option Value
inject_into slopctl events settings = map_option (with_hooks settings) (
    and_then (as_object (unwrap_or (field_of settings "hooks") (object no_fields)))
      (inject_events slopctl events))

unfoldable pub inject_hook_events : Value → String → List String → Option Value
unfolding inject_events as_object field_of set_field
inject_hook_events settings slopctl events =
    and_then (as_object settings) (inject_into slopctl events)

unfoldable pub inject_backend_hooks : Value → String → Backend → Option Value
unfolding inject_hook_events hook_events
inject_backend_hooks settings slopctl backend =
    inject_hook_events settings slopctl (hook_events backend)

unfoldable pub remove_entries : String → Values → Values
unfolding retain entry_any is_ours
remove_entries event = retain (λ v. not (entry_any (is_ours event) v))

abbrev pub remove_at : String → Fields → Option Values → Fields
remove_at event hooks none = hooks
remove_at event hooks (some vs) = set_field event (array (remove_entries event vs)) hooks

unfoldable pub remove_events : List String → Fields → Fields
unfolding remove_entries set_field field_of as_array
remove_events [] hooks = hooks
remove_events (event ∷ events) hooks =
    remove_events events (remove_at event hooks (and_then (field_of hooks event) as_array))

abbrev pub remove_from : Value → List String → Option Fields → Value
remove_from settings events none = settings
remove_from (object fs) events (some hooks) =
    object (set_field "hooks" (object (remove_events events hooks)) fs)
remove_from settings events (some hooks) = settings

unfoldable pub remove_hook_events : Value → List String → Value
unfolding remove_events set_field get_key as_object
remove_hook_events settings events =
    remove_from settings events (and_then (get_key settings "hooks") as_object)

unfoldable pub remove_backend_hooks : Value → Backend → Value
unfolding remove_hook_events hook_events
remove_backend_hooks settings backend = remove_hook_events settings (hook_events backend)
