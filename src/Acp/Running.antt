-- ===== src/Acp/Running.antt =====
-- slopd-acp/src/adapter.rs: the running tools of a client, none of them twice.
use slopd.Base.{
  String, Bool, false, ◌||◌, Option, none, some, List, [], ◌∷◌, and_then, contains, option_beq,
  ◌==◌, string_eq, eq_refl, ◌≡◌, refl, ap, ◌∙◌, arith, Bool-cases, inl, inr,
}
use slopd.Json.Value.{Value, str_at}
use slopd.Acp.ToolUpdates.{without, finish_open_tools}
use slopd.Acp.Emit.{Sent, update, own_update, native}
use slopd.Acp.Client.{started, told, see, follow, follow_sent, may_end_unknown}

abbrev pub IsOnce : List String → Type 0
IsOnce [] = Unit
IsOnce (t ∷ tools) = (contains tools t ≡ false) × IsOnce tools

abbrev pub IsOnceIfAny : Option (List String) → Type 0
IsOnceIfAny none = Unit
IsOnceIfAny (some tools) = IsOnce tools

contains-without :
    (id t : String) (tools : List String)
    → contains tools t ≡ false
    → contains (without id tools) t ≡ false
unfolding contains
contains-without id t [] h = refl
contains-without id t (x ∷ tools) h = ground (arith, h, contains-without id t tools)

without-IsOnce : (id : String) (tools : List String) → IsOnce tools → IsOnce (without id tools)
without-IsOnce id [] h = tt
without-IsOnce id (t ∷ tools) h = elim (Bool-cases (t == id)) [
  | inl e ↦ rw e (without-IsOnce id tools h.1)
  | inr e ↦ rw e (contains-without id t tools h.0, without-IsOnce id tools h.1)
]

without_absent :
    (id : String) (tools : List String) → contains tools id ≡ false → without id tools ≡ tools
unfolding contains
without_absent id [] h = refl
without_absent id (t ∷ tools) h = ground (arith, h, without_absent id tools)

started-IsOnce :
    (id : Option String) (tools : List String) → IsOnce tools → IsOnceIfAny (started id tools)
started-IsOnce none tools h = tt
started-IsOnce (some id) tools h = elim (Bool-cases (contains tools id)) [
  | inl e ↦ rw e tt
  | inr e ↦ rw e (e, h)
]

told-IsOnce :
    (lenient : Bool) (id status : Option String) (tools : List String)
    → IsOnce tools
    → IsOnceIfAny (told lenient id status tools)
told-IsOnce lenient none status tools h = tt
told-IsOnce lenient (some id) none tools h = tt
told-IsOnce lenient (some id) (some status) tools h =
    elim (Bool-cases (status == "completed" || status == "failed")) [
      | inl e ↦ elim (Bool-cases (lenient || contains tools id)) [
        | inl k ↦ rw (e, k) (without-IsOnce id tools h)
        | inr k ↦ rw (e, k) tt
      ]
      | inr e ↦ elim (Bool-cases (contains tools id)) [ inl k ↦ rw (e, k) h | inr k ↦ rw (e, k) tt ]
    ]

see-IsOnce :
    (lenient : Bool) (u : Value) (tools : List String)
    → IsOnce tools
    → IsOnceIfAny (see lenient u tools)
unfolding see
see-IsOnce lenient u tools h =
    elim (Bool-cases (option_beq (str_at u "sessionUpdate") (some "tool_call"))) [
      | inl e ↦ rw e (started-IsOnce (str_at u "toolCallId") tools h)
      | inr n ↦
          elim (Bool-cases (option_beq (str_at u "sessionUpdate") (some "tool_call_update"))) [
            | inl e ↦
                rw (n, e) (told-IsOnce lenient (str_at u "toolCallId") (str_at u "status") tools h)
            | inr e ↦ rw (n, e) h
          ]
    ]

and_then-IsOnce :
    (x : Option (List String)) (f : List String → Option (List String))
    → IsOnceIfAny x
    → ((t : List String) → IsOnce t → IsOnceIfAny (f t))
    → IsOnceIfAny (and_then x f)
and_then-IsOnce none f h k = tt
and_then-IsOnce (some t) f h k = k t h

-- A client that starts with no tool twice never has one twice.
pub follow_sent-IsOnce :
    (sent : List Sent) (tools : List String) → IsOnce tools → IsOnceIfAny (follow_sent sent tools)
unfolding follow_sent
follow_sent-IsOnce [] tools h = h
follow_sent-IsOnce (update r u ∷ sent) tools h =
    and_then-IsOnce (see (may_end_unknown r) u tools) (λ t. follow_sent sent t)
      (see-IsOnce (may_end_unknown r) u tools h) (λ t k. follow_sent-IsOnce sent t k)
follow_sent-IsOnce (own_update u ∷ sent) tools h =
    and_then-IsOnce (see false u tools) (λ t. follow_sent sent t) (see-IsOnce false u tools h)
      (λ t k. follow_sent-IsOnce sent t k)
follow_sent-IsOnce (native m ∷ sent) tools h = follow_sent-IsOnce sent tools h

-- The closing updates end each tool that runs, once.
pub follow-finish_all :
    (tools : List String) → IsOnce tools → follow false (finish_open_tools tools) tools ≡ some []
unfolding follow finish_open_tools see contains
follow-finish_all [] h = refl
follow-finish_all (id ∷ tools) h = rw (eq_refl id) (
    ap (λ ts. follow false (finish_open_tools tools) ts) (without_absent id tools h.0)
    ∙ follow-finish_all tools h.1)
