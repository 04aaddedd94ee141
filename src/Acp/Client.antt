-- ===== src/Acp/Client.antt =====
-- slopd-acp/src/adapter.rs: what an ACP client makes of the updates of a `Projection`.
use slopd.Base.{
  false, Bool, is_some, String, ◌||◌, Option, none, some, List, [], ◌∷◌, and_then, contains,
  option_beq, ◌==◌, string_eq, if◌then◌else◌,
}
use slopd.Json.Value.{Value, str_at, pointer, as_array}
use slopd.Json.Record.{Record}
use slopd.Acp.Emit.{Sent, update, own_update, native}
use slopd.Acp.ToolUpdates.{without}

-- A call starts a tool that is not running.
abbrev pub started : Option String → List String → Option (List String)
started none tools = none
started (some id) tools = if contains tools id then none else some (id ∷ tools)

-- The end of a tool, and other news of it, are of a tool that is running. A lenient client lets a tool
-- end of which it does not know.
abbrev pub told : Bool → Option String → Option String → List String → Option (List String)
told lenient none status tools = none
told lenient (some id) none tools = none
told lenient (some id) (some status) tools =
    if status == "completed" || status == "failed"
    then if lenient || contains tools id then some (without id tools) else none
    else if contains tools id
    then some tools
    else none

-- A client that keeps the tools that are running, none being a breach of the protocol.
unfoldable pub see : (lenient : Bool) → Value → List String → Option (List String)
unfolding str_at option_beq contains
see lenient u tools =
    if option_beq (str_at u "sessionUpdate") (some "tool_call")
    then started (str_at u "toolCallId") tools
    else if option_beq (str_at u "sessionUpdate") (some "tool_call_update")
    then told lenient (str_at u "toolCallId") (str_at u "status") tools
    else some tools

unfoldable pub follow : (lenient : Bool) → List Value → List String → Option (List String)
unfolding see
follow lenient [] tools = some tools
follow lenient (u ∷ us) tools = and_then (see lenient u tools) (λ t. follow lenient us t)

-- A record that may tell the end of a tool that was never announced: a tool part of OpenCode, or one with
-- content blocks of Claude.
unfoldable pub may_end_unknown : Record → Bool
unfolding pointer as_array
may_end_unknown r =
    r.event_type == "tool"
    || is_some (and_then (pointer r.payload ("message" ∷ "content" ∷ [])) as_array)

-- A client is lenient with the updates for such a record, and with no other. It leaves out what Grok
-- wrote itself.
unfoldable pub follow_sent : List Sent → List String → Option (List String)
unfolding see may_end_unknown
follow_sent [] tools = some tools
follow_sent (update r u ∷ sent) tools =
    and_then (see (may_end_unknown r) u tools) (λ t. follow_sent sent t)
follow_sent (own_update u ∷ sent) tools = and_then (see false u tools) (λ t. follow_sent sent t)
follow_sent (native message ∷ sent) tools = follow_sent sent tools
