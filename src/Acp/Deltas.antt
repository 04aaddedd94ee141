-- ===== src/Acp/Deltas.antt =====
-- slopd-acp/src/adapter.rs: `opencode_part_delta` over the parts of a message, which OpenCode sends anew
-- as a whole whenever they grow.
use Prim.Native.String.{◌++◌ as join}
use slopd.Base.{
  String, Option, some, List, [], ◌∷◌, Map, get, insert, unwrap_or, map, strip_prefix-join, ◌≡◌,
  refl, ap, ◌∙◌, string_eq,
}
use slopd.Json.Value.{Value, string, object, no_fields, field, get_key, str_at, as_str}
use slopd.Acp.Projection.{part_delta, opencode_part_delta}

-- A part with its text so far.
abbrev pub part_payload : String → String → Value
part_payload id text = object (
    field "part" (object (field "id" (string id) (field "text" (string text) no_fields))) no_fields)

-- What the adapter finds new in each payload.
unfoldable pub deltas : List Value → Map String String → List (Option String)
unfolding opencode_part_delta
deltas [] previous = []
deltas (payload ∷ payloads) previous =
    let d = opencode_part_delta payload previous in d.0 ∷ deltas payloads d.1

-- The payloads of a server that adds each piece to the part of its id and sends the part.
unfoldable pub sent_parts : List (String × String) → Map String String → List Value
unfolding get insert
sent_parts [] texts = []
sent_parts ((id, piece) ∷ pieces) texts =
    let text = join (unwrap_or (get texts id) "") piece in
    part_payload id text ∷ sent_parts pieces (insert id text texts)

opencode_part_delta-part_payload :
    (id text : String) (previous : Map String String)
    → opencode_part_delta (part_payload id text) previous
      ≡ (some (part_delta id text previous).0, (part_delta id text previous).1)
unfolding opencode_part_delta get_key str_at as_str
opencode_part_delta-part_payload id text previous = refl

part_delta-join :
    (id piece : String) (previous : Map String String)
    → part_delta id (join (unwrap_or (get previous id) "") piece) previous
      ≡ (piece, insert id (join (unwrap_or (get previous id) "") piece) previous)
unfolding part_delta
part_delta-join id piece previous =
    let text = join (unwrap_or (get previous id) "") piece in
    ap (λ o. (unwrap_or o text, insert id text previous))
      (strip_prefix-join (unwrap_or (get previous id) "") piece)

-- The texts of the parts of a message are relayed piece by piece: where a server adds pieces to the
-- parts of a message, in any order, and sends a part as a whole after each, the adapter finds exactly the
-- pieces new, in their order. The server and the adapter start with the same texts.
pub deltas-sent_parts :
    (pieces : List (String × String)) (texts : Map String String)
    → deltas (sent_parts pieces texts) texts ≡ map (λ (x : String × String). some x.1) pieces
unfolding deltas sent_parts
deltas-sent_parts [] texts = refl
deltas-sent_parts ((id, piece) ∷ pieces) texts =
    let text = join (unwrap_or (get texts id) "") piece in
    ap (λ d. d.0 ∷ deltas (sent_parts pieces (insert id text texts)) d.1)
      (opencode_part_delta-part_payload id text texts
        ∙ ap (λ d. (some d.0, d.1)) (part_delta-join id piece texts))
    ∙ ap (◌∷◌ (some piece)) (deltas-sent_parts pieces (insert id text texts))
