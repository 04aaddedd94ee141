-- ===== src/Acp/Followed.antt =====
-- slopd-acp/src/adapter.rs: the updates for one record, and those that end a turn.
use slopd.Base.{String, Bool, List, [], ◌++◌, some, string_eq, ◌≡◌, subst, ◌∙◌}
use slopd.Pane.Agent.{Backend}
use slopd.Json.Value.{Value}
use slopd.Json.Record.{Record}
use slopd.Acp.Tools.{Codecs}
use slopd.Acp.ToolUpdates.{tool_updates}
use slopd.Acp.Projection.{Projection, note_role, assistant_text}
use slopd.Acp.Updates.{updates, spoken, send_reasoning, with_tools, with_reasoning}
use slopd.Acp.Quiet.{
  send_text-IsQuiet, send_text-open_tools, note_role-open_tools, send_reasoning-IsQuiet,
  send_reasoning-open_tools,
}
use slopd.Acp.Chaining.{follow-both}
use slopd.Acp.Following.{tool_updates-Follows}
use slopd.Acp.Client.{follow, may_end_unknown}

spoken-open_tools :
    (backend : Backend) (r : Record) (fresh : String) (p : Projection)
    → (spoken backend r fresh p).1.open_tools ≡ p.open_tools
spoken-open_tools backend r fresh p =
    let noted = note_role backend r p in
    let answer = assistant_text backend r noted in
    send_text-open_tools fresh answer.0 (record noted { opencode_text = answer.1 })
    ∙ note_role-open_tools backend r p

spoken-IsQuiet :
    (backend : Backend) (r : Record) (fresh : String) (p : Projection) (lenient : Bool)
    (tools : List String)
    → follow lenient (spoken backend r fresh p).0 tools ≡ some tools
spoken-IsQuiet backend r fresh p lenient =
    let noted = note_role backend r p in
    let answer = assistant_text backend r noted in
    send_text-IsQuiet lenient fresh answer.0 (record noted { opencode_text = answer.1 })

follow-with_tools :
    (codecs : Codecs) (r : Record) (said thought : List Value) (p : Projection)
    (tools : List String)
    → follow (may_end_unknown r) said tools ≡ some tools
    → follow (may_end_unknown r) thought tools ≡ some tools
    → p.open_tools ≡ tools
    → follow (may_end_unknown r) (with_tools codecs r said (thought, p)).1 tools
      ≡ some (with_tools codecs r said (thought, p)).0.open_tools
follow-with_tools codecs r said thought p tools h k same =
    let told = tool_updates codecs r (p.open_tools, []) in
    follow-both (may_end_unknown r) said (thought ++ told.1) tools h (
      follow-both (may_end_unknown r) thought told.1 tools k (
        subst (λ ts. follow (may_end_unknown r) told.1 ts ≡ some told.0) same
          (tool_updates-Follows codecs r p.open_tools)))

follow-with_reasoning :
    (codecs : Codecs) (backend : Backend) (r : Record) (fresh : String) (said : List Value)
    (p : Projection) (tools : List String)
    → follow (may_end_unknown r) said tools ≡ some tools
    → p.open_tools ≡ tools
    → follow (may_end_unknown r) (with_reasoning codecs backend r fresh (said, p)).1 tools
      ≡ some (with_reasoning codecs backend r fresh (said, p)).0.open_tools
follow-with_reasoning codecs backend r fresh said p tools h same =
    let thought = send_reasoning backend r fresh p in
    follow-with_tools codecs r said thought.0 thought.1 tools h
      (send_reasoning-IsQuiet (may_end_unknown r) backend r fresh p tools)
      (send_reasoning-open_tools backend r fresh p ∙ same)

pub follow-updates :
    (codecs : Codecs) (backend : Backend) (r : Record) (fresh fresh_thought : String)
    (p : Projection)
    → follow (may_end_unknown r) (updates codecs backend r fresh fresh_thought p).1 p.open_tools
      ≡ some (updates codecs backend r fresh fresh_thought p).0.open_tools
unfolding updates
follow-updates codecs backend r fresh fresh_thought p =
    let said = spoken backend r fresh p in
    follow-with_reasoning codecs backend r fresh_thought said.0 said.1 p.open_tools
      (spoken-IsQuiet backend r fresh p (may_end_unknown r) p.open_tools)
      (spoken-open_tools backend r fresh p)
