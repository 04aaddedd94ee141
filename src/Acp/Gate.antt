-- ===== src/Acp/Gate.antt =====
-- slopd-acp/src/adapter.rs: `TurnTranscriptGate`, which holds back what a transcript replays from
-- before the current turn.
use slopd.Base.{
  String, Bool, true, false, ◌&&◌, Option, none, some, List, [], ◌∷◌, ◌++◌, option_beq, string_eq,
  unwrap_or, ◌==◌, ◌≡◌, refl, sym, ap, ◌∙◌, arith, append_assoc, append-nil, Bool-cases, inl, inr,
  if◌then◌else◌,
}
use slopd.Pane.Agent.{Backend, codex, backend_eq}
use slopd.Json.Value.{str_at}
use slopd.Json.Record.{Record}

pub record TurnTranscriptGate : Type 0 where
  pub prompt : Option String
  pub saw_boundary : Bool
  pub buffered : List Record

unfoldable pub new_gate : Backend → String → Bool → TurnTranscriptGate
new_gate backend prompt discard_replayed_history = record {
  prompt = if backend_eq backend codex && discard_replayed_history then some prompt else none;
  saw_boundary = false;
  buffered = [];
}

-- The echo of the prompt.
unfoldable pub is_boundary : String → Record → Bool
is_boundary prompt r =
    r.event_type == "userMessage" && option_beq (str_at r.payload "text") (some prompt)

abbrev pub held : String → Record → TurnTranscriptGate → TurnTranscriptGate
held prompt r g =
    if is_boundary prompt r
    then record g { saw_boundary = true; buffered = [] }
    else if g.saw_boundary
    then record g { buffered = g.buffered ++ r ∷ [] }
    else g

abbrev pub accepts_with : Option String → Record → TurnTranscriptGate → Bool × TurnTranscriptGate
accepts_with none r g = (true, g)
accepts_with (some prompt) r g = (false, held prompt r g)

unfoldable pub accepts : Record → TurnTranscriptGate → Bool × TurnTranscriptGate
unfolding is_boundary
accepts r g = accepts_with g.prompt r g

unfoldable pub take_buffered : TurnTranscriptGate → List Record × TurnTranscriptGate
take_buffered g = (g.buffered, record g { buffered = [] })

-- The records that pass at once, and the gate after all of them.
unfoldable pub relay : List Record → TurnTranscriptGate → List Record × TurnTranscriptGate
unfolding accepts
relay [] g = ([], g)
relay (r ∷ rs) g =
    let rest = relay rs (accepts r g).1 in (if (accepts r g).0 then r ∷ rest.0 else rest.0, rest.1)

-- What stands behind the last echo of the prompt.
unfoldable pub after_last_echo : String → List Record → Option (List Record)
after_last_echo prompt [] = none
after_last_echo prompt (r ∷ rs) = elim (after_last_echo prompt rs) [
  | some found ↦ some found
  | none ↦ if is_boundary prompt r then some rs else none
]

after_last_echo-nil : (prompt : String) → after_last_echo prompt [] ≡ none
unfolding after_last_echo
after_last_echo-nil prompt = refl

abbrev kept : Option (List Record) → Bool → List Record → List Record → List Record
kept (some found) saw buffer rs = found
kept none true buffer rs = buffer ++ rs
kept none false buffer rs = buffer

found_in : Bool → List Record → Option (List Record) → Option (List Record)
found_in here rs (some found) = some found
found_in here rs none = if here then some rs else none

after_last_echo-cons :
    (prompt : String) (r : Record) (rs : List Record)
    → after_last_echo prompt (r ∷ rs)
      ≡ found_in (is_boundary prompt r) rs (after_last_echo prompt rs)
unfolding after_last_echo found_in
after_last_echo-cons prompt r rs = ground arith

kept_echo :
    (o : Option (List Record)) (saw : Bool) (buffer : List Record) (r : Record) (rs : List Record)
    → kept o true [] rs ≡ kept (found_in true rs o) saw buffer (r ∷ rs)
unfolding found_in
kept_echo (some found) saw buffer r rs = refl
kept_echo none saw buffer r rs = refl

kept_more :
    (o : Option (List Record)) (buffer : List Record) (r : Record) (rs : List Record)
    → kept o true (buffer ++ r ∷ []) rs ≡ kept (found_in false rs o) true buffer (r ∷ rs)
unfolding found_in
kept_more (some found) buffer r rs = refl
kept_more none buffer r rs = append_assoc buffer (r ∷ []) rs

kept_none :
    (o : Option (List Record)) (buffer : List Record) (r : Record) (rs : List Record)
    → kept o false buffer rs ≡ kept (found_in false rs o) false buffer (r ∷ rs)
unfolding found_in
kept_none (some found) buffer r rs = refl
kept_none none buffer r rs = refl

relay-held :
    (prompt : String) (rs : List Record) (saw : Bool) (buffer : List Record)
    → let r = relay rs (record { prompt = some prompt; saw_boundary = saw; buffered = buffer }) in
      (r.0 ≡ []) × (r.1.buffered ≡ kept (after_last_echo prompt rs) saw buffer rs)
unfolding relay accepts
relay-held prompt [] true buffer = (refl, start)
  where
    start : buffer ≡ kept (after_last_echo prompt []) true buffer []
    start =
        sym (append-nil buffer) ∙ ap (λ o. kept o true buffer []) (sym (after_last_echo-nil prompt))
relay-held prompt [] false buffer =
    (refl, ap (λ o. kept o false buffer []) (sym (after_last_echo-nil prompt)))
relay-held prompt (r ∷ rs) true buffer = elim (Bool-cases (is_boundary prompt r)) [
  | inl e ↦
      let next = relay-held prompt rs true [] in
      rw (after_last_echo-cons prompt r rs, e)
        (next.0, next.1 ∙ kept_echo (after_last_echo prompt rs) true buffer r rs)
  | inr e ↦
      let next = relay-held prompt rs true (buffer ++ r ∷ []) in
      rw (after_last_echo-cons prompt r rs, e)
        (next.0, next.1 ∙ kept_more (after_last_echo prompt rs) buffer r rs)
]
relay-held prompt (r ∷ rs) false buffer = elim (Bool-cases (is_boundary prompt r)) [
  | inl e ↦
      let next = relay-held prompt rs true [] in
      rw (after_last_echo-cons prompt r rs, e)
        (next.0, next.1 ∙ kept_echo (after_last_echo prompt rs) false buffer r rs)
  | inr e ↦
      let next = relay-held prompt rs false buffer in
      rw (after_last_echo-cons prompt r rs, e)
        (next.0, next.1 ∙ kept_none (after_last_echo prompt rs) buffer r rs)
]

-- A gate for a Codex turn that discards replayed history lets no record pass at once, and holds, when
-- the turn ends, exactly the records behind the last echo of the prompt, or none if there is no echo.
pub relay-new_gate :
    (prompt : String) (rs : List Record)
    → ((relay rs (new_gate codex prompt true)).0 ≡ [])
      × ((take_buffered (relay rs (new_gate codex prompt true)).1).0
          ≡ unwrap_or (after_last_echo prompt rs) [])
unfolding new_gate take_buffered backend_eq
relay-new_gate prompt rs =
    let all_held = relay-held prompt rs false [] in
    (all_held.0, all_held.1 ∙ kept_unwrapped (after_last_echo prompt rs))
  where
    kept_unwrapped : (o : Option (List Record)) → kept o false [] rs ≡ unwrap_or o []
    kept_unwrapped none = refl
    kept_unwrapped (some found) = refl
