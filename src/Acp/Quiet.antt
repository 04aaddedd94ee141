-- ===== src/Acp/Quiet.antt =====
-- slopd-acp/src/adapter.rs: the updates that say nothing of tools.
use slopd.Base.{
  String, Bool, true, false, ◌||◌, Option, none, some, List, [], ◌∷◌, and_then, ◌==◌, string_eq,
  ◌≡◌, refl, inl, inr, Bool-cases, ◌&&◌,
}
use slopd.Pane.Agent.{Backend}
use slopd.Json.Value.{Value, Values, empty, item, str_at, get_key, as_array}
use slopd.Json.Record.{Record}
use slopd.Settings.Inject.{set_field}
use slopd.Acp.Tools.{
  Codecs, ProjectedTool, tool_completed, plan_updates, plan_of, explained, plan_update,
  thought_chunk, message_chunk,
}
use slopd.Acp.Projection.{AssistantText, Projection}
use slopd.Acp.Updates.{with_message_id, chunk_of, send_text, thought_of, send_reasoning}
use slopd.Pane.Agent.{opencode, backend_eq}
use slopd.Settings.Inject.{insert_field, replace_field, set_field}
use slopd.Json.Value.{field_of}
use slopd.Base.{str_lt, Option-cases, unwrap_or, inl, inr, Bool-cases, ◌||◌, ◌&&◌}
use slopd.Acp.Tools.{thought_chunk, message_chunk}
use slopd.Acp.Projection.{AssistantText, Projection, note_role}
use slopd.Acp.Updates.{
  with_message_id, chunk_of, send_text, thought_of, reasoning_id, reasoning_text, send_reasoning,
}
use slopd.Json.Record.{Record}
use slopd.Pane.Agent.{Backend}
use slopd.Acp.Client.{see, follow}

pub send_text-open_tools :
    (fresh : String) (t : Option AssistantText) (p : Projection)
    → (send_text fresh t p).1.open_tools ≡ p.open_tools
send_text-open_tools fresh none p = refl
send_text-open_tools fresh (some t) p = elim (Bool-cases (t.text == "")) [
  | inl e ↦ rw e refl
  | inr e ↦ elim (Option-cases t.message_id) [
    | inl f ↦ rw (e, f) refl
    | inr (id, f) ↦ rw (e, f) refl
  ]
]

pub note_role-open_tools :
    (backend : Backend) (r : Record) (p : Projection)
    → (note_role backend r p).open_tools ≡ p.open_tools
unfolding note_role
note_role-open_tools backend r p =
    elim (Bool-cases
      (backend_eq backend opencode && (r.event_type == "user" || r.event_type == "assistant"))) [
        | inl e ↦ elim (Bool-cases (r.event_type == "assistant")) [
          | inl f ↦ rw (e, f) refl
          | inr f ↦ rw (e, f) refl
        ]
        | inr e ↦ rw e refl
      ]

pub send_reasoning-open_tools :
    (backend : Backend) (r : Record) (fresh : String) (p : Projection)
    → (send_reasoning backend r fresh p).1.open_tools ≡ p.open_tools
send_reasoning-open_tools backend r fresh p = elim (Bool-cases (r.event_type == "reasoning")) [
  | inl e ↦ rw e refl
  | inr e ↦ rw e refl
]

module _ (lenient : Bool) where
  -- Updates that say nothing of tools.
  abbrev IsQuiet : List Value → Type 0
  IsQuiet us = (tools : List String) → follow lenient us tools ≡ some tools

  abbrev pub IsQuietIfAny : Option (List Value) → Type 0
  IsQuietIfAny none = Unit
  IsQuietIfAny (some us) = IsQuiet us

  explained-IsQuiet :
      (explanation : Option String) (entries : Values)
      → IsQuiet (explained explanation (plan_update entries ∷ []))
  unfolding follow see thought_chunk
  explained-IsQuiet none entries tools = refl
  explained-IsQuiet (some text) entries tools = elim (Bool-cases (text == "")) [
    | inl e ↦ rw e refl
    | inr e ↦ rw e refl
  ]

  plan_of-IsQuiet :
      (explanation : Option String) (entries : Values) → IsQuietIfAny (plan_of explanation entries)
  plan_of-IsQuiet explanation empty = tt
  plan_of-IsQuiet explanation (item v vs) = explained-IsQuiet explanation (item v vs)

  pub and_then-IsQuiet :
      {A : Type 0} (o : Option A) (f : A → Option (List Value))
      → ((x : A) → IsQuietIfAny (f x))
      → IsQuietIfAny (and_then o f)
  and_then-IsQuiet none f h = tt
  and_then-IsQuiet (some x) f h = h x

  pub plan_updates-IsQuiet : (input : Value) → IsQuietIfAny (plan_updates input)
  unfolding plan_updates
  plan_updates-IsQuiet input =
      and_then-IsQuiet (and_then (get_key input "plan") as_array)
        (λ entries. plan_of (str_at input "explanation") (slopd.Acp.Tools.plan_entries entries))
        (λ entries.
          plan_of-IsQuiet (str_at input "explanation") (slopd.Acp.Tools.plan_entries entries))

  chunk-IsQuiet :
      (id text : String) (progress : Bool)
      → IsQuiet (with_message_id id (chunk_of progress text) ∷ [])
  unfolding follow see set_field insert_field replace_field field_of str_lt thought_chunk
      message_chunk
  chunk-IsQuiet id text true tools = refl
  chunk-IsQuiet id text false tools = refl

  nothing-IsQuiet : IsQuiet []
  unfolding follow
  nothing-IsQuiet tools = refl

  pub send_text-IsQuiet :
      (fresh : String) (t : Option AssistantText) (p : Projection) → IsQuiet (send_text fresh t p).0
  send_text-IsQuiet fresh none p = nothing-IsQuiet
  send_text-IsQuiet fresh (some t) p = elim (Bool-cases (t.text == "")) [
    | inl e ↦ rw e nothing-IsQuiet
    | inr e ↦ elim (Option-cases t.message_id) [
      | inl f ↦ rw (e, f) (chunk-IsQuiet (unwrap_or p.message_id fresh) t.text t.progress)
      | inr (id, f) ↦ rw (e, f) (chunk-IsQuiet id t.text t.progress)
    ]
  ]

  thought_of-IsQuiet :
      (fresh : String) (r : Record) (text : Option String) → IsQuiet (thought_of fresh r text)
  thought_of-IsQuiet fresh r none = nothing-IsQuiet
  thought_of-IsQuiet fresh r (some text) = elim (Bool-cases (text == "")) [
    | inl e ↦ rw e nothing-IsQuiet
    | inr e ↦ rw e (chunk-IsQuiet (unwrap_or (reasoning_id r.payload) fresh) text true)
  ]

  pub send_reasoning-IsQuiet :
      (backend : Backend) (r : Record) (fresh : String) (p : Projection)
      → IsQuiet (send_reasoning backend r fresh p).0
  send_reasoning-IsQuiet backend r fresh p = elim (Bool-cases (r.event_type == "reasoning")) [
    | inl e ↦ rw e (thought_of-IsQuiet fresh r (reasoning_text backend r p).0)
    | inr e ↦ rw e nothing-IsQuiet
  ]
