-- ===== src/Examples/SettingsRuns.antt =====
-- A settings file with a hook of an older slopctl and a hook of another tool.
use slopd.Base.{String, true, some, List, [], ◌∷◌, ◌≡◌, refl, contains, string_eq}
use slopd.Base.Suffix.{first_token}
use slopd.Json.Value.{
  Value, string, array, object, empty, item, no_fields, field, get_key, as_array,
}
use slopd.Settings.Command.{our_matcher, is_slopctl}
use slopd.Settings.Inject.{as_object, inject_hook_events, remove_hook_events}
use slopd.Settings.Fields.{entries_at}
use slopd.Settings.Idempotent.{inject_hook_events_twice}
use slopd.Settings.Removed.{remove-inject_hook_events}

abbrev an_entry : String → Value
an_entry command = object (
    field "hooks"
      (array (
        item (object (field "command" (string command) (field "type" (string "command") no_fields)))
          empty))
      no_fields)

abbrev old_settings : Value
old_settings = object (
    field "hooks"
      (object (
        field "Stop"
          (array (
            item (an_entry "/opt/bin/slopctl -v hook Stop")
              (item (an_entry "lint hook Stop") empty)))
          no_fields))
      (field "model" (string "large") no_fields))

abbrev two_events : List String
two_events = "SessionStart" ∷ "Stop" ∷ []

abbrev new_settings : Value
new_settings = object (
    field "hooks"
      (object (
        field "SessionStart" (array (item (our_matcher "slopctl" "SessionStart") empty)) (
          field "Stop"
            (array (item (an_entry "lint hook Stop") (item (our_matcher "slopctl" "Stop") empty)))
            no_fields)))
      (field "model" (string "large") no_fields))

injection : inject_hook_events old_settings "slopctl" two_events ≡ some new_settings
unfolding inject_hook_events
injection = refl

its_name : is_slopctl (first_token "slopctl") ≡ true
unfolding is_slopctl first_token
its_name = refl

inject_hook_events_twice_example :
    inject_hook_events new_settings "slopctl" two_events ≡ some new_settings
inject_hook_events_twice_example =
    inject_hook_events_twice old_settings new_settings "slopctl" two_events injection

is_listed : contains two_events "Stop" ≡ true
unfolding contains
is_listed = refl

remove-inject_hook_events_example :
    entries_at "Stop" (remove_hook_events new_settings two_events)
    ≡ entries_at "Stop" (remove_hook_events old_settings two_events)
remove-inject_hook_events_example =
    remove-inject_hook_events old_settings new_settings "slopctl" "Stop" two_events its_name
      injection

what_is_left :
    entries_at "Stop" (remove_hook_events new_settings two_events)
    ≡ item (an_entry "lint hook Stop") empty
unfolding remove_hook_events get_key as_array as_object
what_is_left = refl
