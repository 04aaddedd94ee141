-- ===== src/Acp/Chaining.antt =====
-- slopd-acp/src/adapter.rs: what a client makes of the start, the news and the end of a tool.
use slopd.Base.{
  String, Bool, true, false, ◌||◌, Option, none, some, List, [], ◌∷◌, ◌++◌, and_then, contains,
  string_eq, ◌≡◌, refl, ap, ◌∙◌, inl, inr, Bool-cases,
}
use slopd.Json.Value.{Value, str_at, get_key, as_str}
use slopd.Acp.Tools.{Codecs, ProjectedTool, tool_completed}
use slopd.Acp.ToolUpdates.{
  Tools, without, tool_call, tool_update, tool_failed, open_tool, close_tool,
}
use slopd.Acp.Client.{see, follow}

pub and_then_nested :
    (x : Option (List String)) (f g h : List String → Option (List String))
    → ((t : List String) → f t ≡ and_then (g t) h)
    → and_then x f ≡ and_then (and_then x g) h
and_then_nested none f g h e = refl
and_then_nested (some t) f g h e = e t

module _ (lenient : Bool) where
  pub see-tool_call :
      (id status : String) (t : ProjectedTool) (tools : List String)
      → contains tools id ≡ false
      → see lenient (tool_call id t status) tools ≡ some (id ∷ tools)
  unfolding see str_at get_key as_str
  see-tool_call id status t tools h = rw h refl

  pub see-tool_completed :
      (codecs : Codecs) (id : String) (output : Value) (tools : List String)
      → (lenient || contains tools id) ≡ true
      → see lenient (tool_completed codecs id output) tools ≡ some (without id tools)
  unfolding see tool_completed
  see-tool_completed codecs id output tools h = rw h refl

  pub see-tool_failed :
      (id : String) (output : Value) (tools : List String)
      → (lenient || contains tools id) ≡ true
      → see lenient (tool_failed id output) tools ≡ some (without id tools)
  unfolding see
  see-tool_failed id output tools h = rw h refl

  pub see-in_progress :
      (id : String) (tools : List String)
      → contains tools id ≡ true
      → see lenient (tool_update id "in_progress") tools ≡ some tools
  unfolding see
  see-in_progress id tools h = rw h refl

  pub follow_none : (tools : List String) → follow lenient [] tools ≡ some tools
  unfolding follow
  follow_none tools = refl

  follow-append :
      (us vs : List Value) (tools : List String)
      → follow lenient (us ++ vs) tools
        ≡ and_then (follow lenient us tools) (λ t. follow lenient vs t)
  unfolding follow
  follow-append [] vs tools = refl
  follow-append (u ∷ us) vs tools =
      and_then_nested (see lenient u tools) (λ t. follow lenient (us ++ vs) t)
        (λ t. follow lenient us t) (λ t. follow lenient vs t) (λ t. follow-append us vs t)

  -- Following two lists of updates, one after the other.
  pub follow-both :
      (us vs : List Value) (a : List String) {b c : List String}
      → follow lenient us a ≡ some b
      → follow lenient vs b ≡ some c
      → follow lenient (us ++ vs) a ≡ some c
  follow-both us vs a h k =
      follow-append us vs a ∙ ap (λ o. and_then o (λ t. follow lenient vs t)) h ∙ k

  pub follow_one :
      (u : Value) (tools : List String) → follow lenient (u ∷ []) tools ≡ see lenient u tools
  unfolding follow
  follow_one u tools = last_step (see lenient u tools)
    where
      last_step : (o : Option (List String)) → and_then o (λ t. some t) ≡ o
      last_step none = refl
      last_step (some t) = refl

  -- A client that follows the updates knows the tools that are open.
  abbrev pub Follows : List String → Tools → Type 0
  Follows a (tools, us) = follow lenient us a ≡ some tools

  pub open_tool-Follows :
      (a : List String) (id : String) (t : ProjectedTool) (status : String) (again : List Value)
      (tools : List String) (us : List Value)
      → (contains tools id ≡ true → follow lenient again tools ≡ some tools)
      → Follows a (tools, us)
      → Follows a (open_tool id t status again (tools, us))
  open_tool-Follows a id t status again tools us known h = elim (Bool-cases (contains tools id)) [
    | inl e ↦ rw e (follow-both us again a h (known e))
    | inr e ↦ rw e (
        follow-both us (tool_call id t status ∷ []) a h
          (follow_one (tool_call id t status) tools ∙ see-tool_call id status t tools e))
  ]

  pub close_tool-Follows :
      (a : List String) (id : String) (update : Value) (tools : List String) (us : List Value)
      → see lenient update tools ≡ some (without id tools)
      → Follows a (tools, us)
      → Follows a (close_tool id update (tools, us))
  close_tool-Follows a id update tools us seen h =
      follow-both us (update ∷ []) a h (follow_one update tools ∙ seen)
