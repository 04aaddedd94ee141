-- ===== src/Acp/Following.antt =====
-- slopd-acp/src/adapter.rs: an ACP client can follow which tools run.
use slopd.Base.{
  is_some, unwrap_or, arith, String, Bool, true, false, not, ◌||◌, Option, none, some, List, [],
  ◌∷◌, ◌++◌, and_then, contains, ◌==◌, string_eq, all, option_beq, ◌≡◌, refl, ◌∙◌, inl, inr,
  Bool-cases, ◌&&◌,
}
use slopd.Json.Value.{Value, Values, empty, item, str_at, get_key, as_array, pointer}
use slopd.Json.Record.{Record}
use slopd.Acp.Tools.{Codecs, ProjectedTool, plan_updates}
use slopd.Acp.ToolUpdates.{
  Tools, tool_update, call_after, call_named, result_of, part_of, part_with, is_call_type, block_of,
  block_result, blocks_of, after_call, tool_updates, part_name, part_tool, part_id_or, tool_status,
  is_plan, plan_input, embedded_in,
}
use slopd.Acp.Client.{follow, may_end_unknown}
use slopd.Acp.Quiet.{IsQuietIfAny, and_then-IsQuiet, plan_updates-IsQuiet}
use slopd.Acp.Chaining.{
  Follows, see-tool_completed, see-tool_failed, see-in_progress, follow_none, follow-both,
  follow_one, open_tool-Follows, close_tool-Follows,
}

module _ (lenient : Bool) where
  call_after-Follows :
      (codecs : Codecs) (a : List String) (r : Record) (name : String)
      (embedded : List (String × Value)) (plan : Option (List Value)) (t : Tools)
      → IsQuietIfAny lenient plan
      → Follows lenient a t
      → Follows lenient a (call_after codecs r name embedded plan t).1
  call_after-Follows codecs a r name embedded none (tools, us) quiet h =
      open_tool-Follows lenient a _ _ "in_progress" [] tools us (λ _. follow_none lenient tools) h
  call_after-Follows codecs a r name embedded (some plan) (tools, us) quiet h =
      let told = follow-both lenient us plan a h (quiet tools) in
      elim (Bool-cases (not (name == "exec") || all is_plan embedded)) [
        | inl e ↦ rw e told
        | inr e ↦ rw e (
            open_tool-Follows lenient a _ _ "in_progress" [] tools (us ++ plan)
              (λ _. follow_none lenient tools) told)
      ]

  call_named-Follows :
      (codecs : Codecs) (a : List String) (r : Record) (name : Option String) (t : Tools)
      → Follows lenient a t
      → Follows lenient a (call_named codecs r name t).1
  call_named-Follows codecs a r none t h = h
  call_named-Follows codecs a r (some name) t h = elim (Bool-cases (is_call_type r.event_type)) [
    | inl e ↦
        let embedded = embedded_in codecs r name in
        rw e (
          call_after-Follows codecs a r name embedded _ t
            (and_then-IsQuiet lenient (plan_input codecs r name embedded) plan_updates
              (plan_updates-IsQuiet lenient))
            h)
    | inr e ↦ rw e h
  ]

  result_of-Follows :
      (codecs : Codecs) (a : List String) (r : Record) (id : Option String) (t : Tools)
      → Follows lenient a t
      → Follows lenient a (result_of codecs r id t)
  result_of-Follows codecs a r none t h = h
  result_of-Follows codecs a r (some id) (tools, us) h =
      elim (Bool-cases (r.event_type == "toolResult" && contains tools id)) [
        | inl e ↦ rw e (
            close_tool-Follows lenient a id _ tools us
              (see-tool_completed lenient codecs id _ tools (ground (arith, e))) h)
        | inr e ↦ rw e h
      ]

  part_with-Follows :
      (codecs : Codecs) (a : List String) (part : Value) (t : ProjectedTool) (id status : String)
      (u : Tools)
      → lenient ≡ true
      → Follows lenient a u
      → Follows lenient a (part_with codecs part t id status u)
  part_with-Follows codecs a part t id status (tools, us) l h =
      elim (Bool-cases (status == "pending")) [
        | inl e ↦ rw e (
            open_tool-Follows lenient a id t "pending" [] tools us (λ _. follow_none lenient tools)
              h)
        | inr n1 ↦ elim (Bool-cases (status == "running")) [
          | inl e ↦
              rw (n1, e)
                (open_tool-Follows lenient a id t "in_progress" (tool_update id "in_progress" ∷ [])
                  tools us
                  (λ k.
                    follow_one lenient (tool_update id "in_progress") tools
                    ∙ see-in_progress lenient id tools k)
                  h)
          | inr n2 ↦ elim (Bool-cases (status == "completed")) [
            | inl e ↦
                rw (n1, n2, e)
                  (close_tool-Follows lenient a id _ tools us
                    (see-tool_completed lenient codecs id _ tools (ground (arith, l))) h)
            | inr n3 ↦ elim (Bool-cases (status == "error" || status == "failed")) [
              | inl e ↦
                  rw (n1, n2, n3, e)
                    (close_tool-Follows lenient a id _ tools us
                      (see-tool_failed lenient id _ tools (ground (arith, l))) h)
              | inr e ↦ rw (n1, n2, n3, e) h
            ]
          ]
        ]
      ]

  part_of-Follows :
      (codecs : Codecs) (a : List String) (r : Record) (part : Option Value) (t : Tools)
      → (r.event_type == "tool" ≡ true → lenient ≡ true)
      → Follows lenient a t
      → Follows lenient a (part_of codecs r part t)
  part_of-Follows codecs a r none t l h = h
  part_of-Follows codecs a r (some part) t l h = elim (Bool-cases (r.event_type == "tool")) [
    | inl e ↦ rw e (
        part_with-Follows codecs a part (part_tool codecs r part)
          (part_id_or r part (part_name part)) (tool_status part) t (l e) h)
    | inr e ↦ rw e h
  ]

  block_result-Follows :
      (codecs : Codecs) (a : List String) (block : Value) (id : Option String) (t : Tools)
      → lenient ≡ true
      → Follows lenient a t
      → Follows lenient a (block_result codecs block id t)
  block_result-Follows codecs a block none t l h = h
  block_result-Follows codecs a block (some id) (tools, us) l h =
      close_tool-Follows lenient a id _ tools us
        (see-tool_completed lenient codecs id _ tools (ground (arith, l))) h

  block_of-Follows :
      (codecs : Codecs) (a : List String) (r : Record) (block : Value) (t : Tools)
      → lenient ≡ true
      → Follows lenient a t
      → Follows lenient a (block_of codecs r block t)
  block_of-Follows codecs a r block (tools, us) l h =
      elim (Bool-cases (option_beq (str_at block "type") (some "tool_use"))) [
        | inl e ↦ rw e (
            open_tool-Follows lenient a _ _ "in_progress" [] tools us
              (λ _. follow_none lenient tools) h)
        | inr n ↦ elim (Bool-cases (option_beq (str_at block "type") (some "tool_result"))) [
          | inl e ↦ rw (n, e) (block_result-Follows codecs a block _ (tools, us) l h)
          | inr e ↦ rw (n, e) h
        ]
      ]

  blocks_of-Follows :
      (codecs : Codecs) (a : List String) (r : Record) (blocks : Values) (t : Tools)
      → lenient ≡ true
      → Follows lenient a t
      → Follows lenient a (blocks_of codecs r blocks t)
  unfolding blocks_of
  blocks_of-Follows codecs a r empty t l h = h
  blocks_of-Follows codecs a r (item block blocks) t l h =
      blocks_of-Follows codecs a r blocks (block_of codecs r block t) l
        (block_of-Follows codecs a r block t l h)

  -- Without content blocks there is nothing to follow.
  content-Follows :
      (codecs : Codecs) (a : List String) (r : Record) (content : Option Values) (t : Tools)
      → (is_some content ≡ true → lenient ≡ true)
      → Follows lenient a t
      → Follows lenient a (blocks_of codecs r (unwrap_or content empty) t)
  unfolding blocks_of
  content-Follows codecs a r none t l h = h
  content-Follows codecs a r (some blocks) t l h = blocks_of-Follows codecs a r blocks t (l refl) h

-- The content of a message of Claude.
abbrev content_at : Record → Option Values
content_at r = and_then (pointer r.payload ("message" ∷ "content" ∷ [])) as_array

after_call-Follows :
    (codecs : Codecs) (a : List String) (r : Record) (x : Bool × Tools)
    → Follows (may_end_unknown r) a x.1
    → Follows (may_end_unknown r) a (after_call codecs r x)
unfolding may_end_unknown
after_call-Follows codecs a r (true, t) h = h
after_call-Follows codecs a r (false, t) h =
    let lenient = may_end_unknown r in
    content-Follows lenient codecs a r (content_at r) _ (λ k. ground (arith, k))
      (part_of-Follows lenient codecs a r (get_key r.payload "part") _ (λ k. ground (arith, k))
        (result_of-Follows lenient codecs a r (str_at r.payload "call_id") t h))

pub tool_updates-Follows :
    (codecs : Codecs) (r : Record) (tools : List String)
    → follow (may_end_unknown r) (tool_updates codecs r (tools, [])).1 tools
      ≡ some (tool_updates codecs r (tools, [])).0
unfolding tool_updates
tool_updates-Follows codecs r tools =
    after_call-Follows codecs tools r (call_named codecs r (str_at r.payload "name") (tools, [])) (
      call_named-Follows (may_end_unknown r) codecs tools r (str_at r.payload "name") (tools, [])
        (follow_none (may_end_unknown r) tools))
