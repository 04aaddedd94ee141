-- ===== src/Settings/Command.antt =====
-- libslop/src/lib.rs: the hook events of each backend, and the tests by which `inject_hook_events`
-- and `remove_hook_events` tell an entry of slopctl from one of another tool.
use Prim.Native.String.{◌++◌ as join}
use slopd.Base.{
  String, Bool, false, not, ◌&&◌, ◌||◌, Option, none, some, List, [], ◌∷◌, and_then, unwrap_or,
  ◌==◌, option_beq, string_eq,
}
use slopd.Base.Suffix.{strip_suffix, ends_with, first_token}
use slopd.Pane.Agent.{Backend, claude, opencode, codex, grok}
use slopd.Json.Value.{
  Value, string, array, object, Values, empty, item, no_fields, field, get_key, as_array, str_at,
}

abbrev pub claude_hook_events : List String
claude_hook_events =
    "SessionStart" ∷ "UserPromptSubmit" ∷ "PreToolUse" ∷ "PermissionRequest" ∷ "PostToolUse"
    ∷ "PostToolUseFailure" ∷ "Notification" ∷ "SubagentStart" ∷ "SubagentStop" ∷ "Stop"
    ∷ "StopFailure" ∷ "TeammateIdle" ∷ "TaskCompleted" ∷ "InstructionsLoaded" ∷ "ConfigChange"
    ∷ "WorktreeCreate" ∷ "WorktreeRemove" ∷ "PreCompact" ∷ "PostCompact" ∷ "Elicitation"
    ∷ "ElicitationResult" ∷ "SessionEnd" ∷ []

abbrev pub codex_hook_events : List String
codex_hook_events =
    "SessionStart" ∷ "SessionEnd" ∷ "PreToolUse" ∷ "PermissionRequest" ∷ "PostToolUse"
    ∷ "PreCompact" ∷ "PostCompact" ∷ "UserPromptSubmit" ∷ "SubagentStart" ∷ "SubagentStop" ∷ "Stop"
    ∷ []

abbrev pub grok_hook_events : List String
grok_hook_events =
    "SessionStart" ∷ "UserPromptSubmit" ∷ "PreToolUse" ∷ "PostToolUse" ∷ "PostToolUseFailure"
    ∷ "PermissionDenied" ∷ "Stop" ∷ "StopFailure" ∷ "StopCancelled" ∷ "Notification"
    ∷ "SubagentStart" ∷ "SubagentStop" ∷ "PreCompact" ∷ "PostCompact" ∷ "SessionEnd" ∷ []

unfoldable pub hook_events : Backend → List String
hook_events claude = claude_hook_events
hook_events codex = codex_hook_events
hook_events grok = grok_hook_events
hook_events opencode = []

-- `format!(" hook {}", event)`, and the command that ends in it.
abbrev pub hook_suffix : String → String
hook_suffix event = join " hook " event

abbrev pub hook_command : String → String → String
hook_command slopctl event = join slopctl (hook_suffix event)

-- Whether a program is slopctl, by its name or by a path.
unfoldable pub is_slopctl : String → Bool
unfolding ends_with
is_slopctl exe = exe == "slopctl" || ends_with exe "/slopctl"

abbrev pub runs_slopctl : Option String → Bool
runs_slopctl none = false
runs_slopctl (some prefix) = is_slopctl (first_token prefix)

abbrev pub has_type_command : Value → Bool
has_type_command h = option_beq (str_at h "type") (some "command")

abbrev pub command_text : Value → String
command_text h = unwrap_or (str_at h "command") ""

-- A hook of slopctl for the event, with any path and arguments.
unfoldable pub is_ours : String → Value → Bool
unfolding is_slopctl first_token strip_suffix str_at option_beq
is_ours event h =
    has_type_command h && runs_slopctl (strip_suffix (hook_suffix event) (command_text h))

unfoldable pub is_stale : String → String → Value → Bool
unfolding is_slopctl first_token strip_suffix str_at option_beq
is_stale slopctl event h =
    has_type_command h
    && not (command_text h == hook_command slopctl event)
    && runs_slopctl (strip_suffix (hook_suffix event) (command_text h))

unfoldable pub is_current : String → String → Value → Bool
unfolding str_at option_beq
is_current slopctl event h =
    has_type_command h && option_beq (str_at h "command") (some (hook_command slopctl event))

unfoldable pub any_value : (Value → Bool) → Values → Bool
any_value p empty = false
any_value p (item v vs) = p v || any_value p vs

abbrev pub any_in : (Value → Bool) → Option Values → Bool
any_in p none = false
any_in p (some hooks) = any_value p hooks

-- Whether a test holds of one of the hooks of an entry.
unfoldable pub entry_any : (Value → Bool) → Value → Bool
unfolding any_value get_key as_array
entry_any p entry = any_in p (and_then (get_key entry "hooks") as_array)

-- The entry that is added: `{"hooks": [{"command": …, "type": "command"}], "matcher": ""}`, its keys
-- in the order in which serde_json keeps them.
abbrev pub our_hook : String → String → Value
our_hook slopctl event = object (
    field "command" (string (hook_command slopctl event))
      (field "type" (string "command") no_fields))

abbrev pub our_matcher : String → String → Value
our_matcher slopctl event = object (
    field "hooks" (array (item (our_hook slopctl event) empty))
      (field "matcher" (string "") no_fields))
