-- ===== src/Acp/Tags.antt =====
-- slopd-acp/src/adapter.rs: the tags by which a pane names its ACP session and its directory.
use Prim.Native.Char.{Char}
use Prim.Native.String.{◌++◌ as join}
use slopd.Base.{
  ℕ, ◌+◌, ◌-◌, ◌*◌, ◌/◌, ◌%◌, String, ◌&&◌, Option, none, some, List, [], ◌∷◌, and_then, or_else,
  map_option, leb, strip_prefix, char_at, if◌then◌else◌,
}
use slopd.Base.Utf8.{as_bytes, from_utf8}

abbrev pub acp_tag : String
acp_tag = "acp"

abbrev pub acp_resumable_tag : String
acp_resumable_tag = "acp-resumable"

abbrev pub acp_deleted_tag : String
acp_deleted_tag = "acp-deleted"

abbrev pub acp_session_tag_prefix : String
acp_session_tag_prefix = "acp-session-"

abbrev pub acp_cwd_tag_prefix : String
acp_cwd_tag_prefix = "acp-cwd-"

abbrev pub acp_scope_tag_prefix : String
acp_scope_tag_prefix = "acp-scope-"

abbrev pub hex_char : ℕ → Char
hex_char n = char_at "0123456789abcdef" n

unfoldable pub hex_encode : List ℕ → String
hex_encode [] = String.[]
hex_encode (byte ∷ bytes) =
    String.◌∷◌ (hex_char (byte / 16)) (String.◌∷◌ (hex_char (byte % 16)) (hex_encode bytes))

-- `to_digit(16)` of a byte as a character.
unfoldable pub to_digit : ℕ → Option ℕ
to_digit b =
    if leb b'0' b && leb b b'9'
    then some (b - b'0')
    else if leb b'a' b && leb b b'f'
    then some (b - b'a' + 10)
    else if leb b'A' b && leb b b'F'
    then some (b - b'A' + 10)
    else none

unfoldable pub decode_pairs : List ℕ → Option (List ℕ)
unfolding to_digit
decode_pairs [] = some []
decode_pairs (a ∷ []) = none
decode_pairs (a ∷ b ∷ bs) =
    let rest = decode_pairs bs in
    and_then (to_digit a)
      (λ high. and_then (to_digit b) (λ low. map_option (◌∷◌ (high * 16 + low)) rest))

unfoldable pub hex_decode : String → Option (List ℕ)
unfolding decode_pairs as_bytes
hex_decode encoded = decode_pairs (as_bytes encoded)

unfoldable pub session_tag : String → String
unfolding hex_encode as_bytes
session_tag session_id = join acp_session_tag_prefix (hex_encode (as_bytes session_id))

unfoldable pub cwd_tag : String → String
unfolding hex_encode as_bytes
cwd_tag cwd = join acp_cwd_tag_prefix (hex_encode (as_bytes cwd))

-- `tags.iter().find_map(|tag| tag.strip_prefix(prefix))`
unfoldable pub find_stripped : String → List String → Option String
unfolding strip_prefix
find_stripped prefix [] = none
find_stripped prefix (tag ∷ tags) = or_else (strip_prefix prefix tag) (find_stripped prefix tags)

unfoldable pub decoded_tag : List String → String → Option String
unfolding find_stripped hex_decode from_utf8
decoded_tag tags prefix = and_then (and_then (find_stripped prefix tags) hex_decode) from_utf8

unfoldable pub tagged_session_id : List String → Option String
unfolding decoded_tag
tagged_session_id tags = decoded_tag tags acp_session_tag_prefix

unfoldable pub tagged_cwd : List String → Option String
unfolding decoded_tag
tagged_cwd tags = decoded_tag tags acp_cwd_tag_prefix
