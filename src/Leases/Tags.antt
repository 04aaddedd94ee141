-- ===== src/Leases/Tags.antt =====
-- slopd/src/main.rs: `lease_tags`, `hex_bytes` and the reading of the tags; libslop's `LeaseGrant`.
use Prim.Native.String.{◌++◌ as join}
use slopd.Base.{
  ℕ, ◌/◌, ◌%◌, String, Bool, not, Option, none, some, List, [], ◌∷◌, ◌++◌, filter, any,
  strip_prefix, starts_with, char_at,
}
use slopd.Base.Utf8.{as_bytes}
use slopd.Base.Decimal.{to_string}

pub data LeaseExpiryPolicy : Type 0 where
  preserve kill : LeaseExpiryPolicy

pub record LeaseGrant : Type 0 where
  pub lease_id : String
  pub scope : String
  pub generation : ℕ
  pub ttl_secs : ℕ
  pub expires_at : ℕ
  pub grace_secs : ℕ
  pub expiry_policy : LeaseExpiryPolicy

abbrev digits : String
digits = "0123456789abcdef"

unfoldable pub hex_bytes : List ℕ → String
hex_bytes [] = ""
hex_bytes (b ∷ bs) =
    String.◌∷◌ (char_at digits (b / 16)) (String.◌∷◌ (char_at digits (b % 16)) (hex_bytes bs))

abbrev pub lease_scope_tag_prefix : String
lease_scope_tag_prefix = "slop-lease-scope-"

abbrev pub lease_id_tag_prefix : String
lease_id_tag_prefix = "slop-lease-id-"

abbrev pub lease_generation_tag_prefix : String
lease_generation_tag_prefix = "slop-lease-generation-"

abbrev pub lease_expires_tag_prefix : String
lease_expires_tag_prefix = "slop-lease-expires-"

abbrev pub lease_grace_tag_prefix : String
lease_grace_tag_prefix = "slop-lease-grace-"

abbrev pub lease_policy_tag_prefix : String
lease_policy_tag_prefix = "slop-lease-policy-"

abbrev pub lease_tag_prefixes : List String
lease_tag_prefixes =
    lease_scope_tag_prefix ∷ lease_id_tag_prefix ∷ lease_generation_tag_prefix
    ∷ lease_expires_tag_prefix ∷ lease_grace_tag_prefix ∷ lease_policy_tag_prefix ∷ []

abbrev pub policy_name : LeaseExpiryPolicy → String
policy_name preserve = "preserve"
policy_name kill = "kill"

unfoldable pub lease_tags : LeaseGrant → List String
unfolding as_bytes hex_bytes
lease_tags g =
    join lease_scope_tag_prefix (hex_bytes (as_bytes g.scope))
    ∷ join lease_id_tag_prefix g.lease_id
    ∷ join lease_generation_tag_prefix (to_string g.generation)
    ∷ join lease_expires_tag_prefix (to_string g.expires_at)
    ∷ join lease_grace_tag_prefix (to_string g.grace_secs)
    ∷ join lease_policy_tag_prefix (policy_name g.expiry_policy)
    ∷ []

abbrev pub is_lease_tag : String → Bool
is_lease_tag tag = any (starts_with tag) lease_tag_prefixes

-- `find_map(|tag| tag.strip_prefix(prefix))`
unfoldable pub lease_tag_value : List String → String → Option String
lease_tag_value [] prefix = none
lease_tag_value (tag ∷ tags) prefix =
    let rest = lease_tag_value tags prefix in
    elim (strip_prefix prefix tag) [ none ↦ rest | some v ↦ some v ]

unfoldable pub attached_lease_id : List String → Option String
unfolding lease_tag_value
attached_lease_id tags = lease_tag_value tags lease_id_tag_prefix

-- What `replace_lease_tags` makes of a pane's tags once tmux has taken the options.
unfoldable pub with_lease_tags : List String → LeaseGrant → List String
unfolding lease_tags
with_lease_tags tags grant = filter (λ t. not (is_lease_tag t)) tags ++ lease_tags grant
