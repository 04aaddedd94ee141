-- ===== src/Leases/TagValues.antt =====
-- slopd/src/main.rs: reading the values of `lease_tags`.
use Prim.Native.Char.{code}
use Prim.Native.String.{◌++◌ as join}
use text.Mathlib.TextLemmas.{cons-append}
use slopd.Base.{
  strip_prefix-join, String, Bool, true, false, not, none, some, List, [], ◌∷◌, ◌++◌, filter,
  string_eq, strip_prefix, ◌≡◌, refl, ◌∙◌, arith, Bool-cases, inl, inr, if◌then◌else◌, eq_iff,
  nat_eq, any, starts_with, contains,
}
use slopd.Base.Decimal.{to_string}
use slopd.Leases.Tags.{
  LeaseGrant, lease_tags, lease_scope_tag_prefix, lease_generation_tag_prefix, lease_tag_value,
  lease_tag_prefixes, is_lease_tag, policy_name, lease_expires_tag_prefix, lease_grace_tag_prefix,
  lease_policy_tag_prefix, lease_id_tag_prefix,
}

-- Two texts that differ before either ends.
clash : String → String → Bool
clash (String.◌∷◌ d t) (String.◌∷◌ c s) =
    let rest = clash t s in if nat_eq (code c) (code d) then rest else true
clash _ _ = false

strip_prefix-clash : (q p s : String) → clash q p ≡ true → strip_prefix q (join p s) ≡ none
unfolding strip_prefix clash
strip_prefix-clash String.[] p s h = cc
strip_prefix-clash (String.◌∷◌ d q) String.[] s h = cc
strip_prefix-clash (String.◌∷◌ d q) (String.◌∷◌ c p) s h =
    ground (arith, cons-append c p s, strip_prefix-clash q p s)

lease_tag_value-other :
    (tag q : String) (tags : List String)
    → strip_prefix q tag ≡ none
    → lease_tag_value (tag ∷ tags) q ≡ lease_tag_value tags q
unfolding lease_tag_value
lease_tag_value-other tag q tags h = rw (h, lease_tag_value) refl

lease_tag_value-clash :
    (q p s : String) (tags : List String)
    → clash q p ≡ true
    → lease_tag_value (join p s ∷ tags) q ≡ lease_tag_value tags q
lease_tag_value-clash q p s tags h =
    lease_tag_value-other (join p s) q tags (strip_prefix-clash q p s h)

lease_tag_value-found :
    (p s : String) (tags : List String) → lease_tag_value (join p s ∷ tags) p ≡ some s
unfolding lease_tag_value
lease_tag_value-found p s tags = rw (strip_prefix-join p s, lease_tag_value) refl

no_prefix :
    (q t : String) (ps : List String)
    → contains ps q ≡ true
    → any (starts_with t) ps ≡ false
    → strip_prefix q t ≡ none
unfolding contains starts_with
no_prefix q t [] h e = cc
no_prefix q t (p ∷ ps) h e = ground (arith, eq_iff p q, no_prefix q t ps)

pub lease_tag_value-filter :
    (q : String) (tags ys : List String)
    → contains lease_tag_prefixes q ≡ true
    → lease_tag_value (filter (λ t. not (is_lease_tag t)) tags ++ ys) q ≡ lease_tag_value ys q
unfolding lease_tag_value
lease_tag_value-filter q [] ys h = refl
lease_tag_value-filter q (t ∷ tags) ys h = elim (Bool-cases (is_lease_tag t)) [
  | inl e ↦ rw e (lease_tag_value-filter q tags ys h)
  | inr e ↦ rw e (
      lease_tag_value-other t q (filter (λ t. not (is_lease_tag t)) tags ++ ys)
        (no_prefix q t lease_tag_prefixes h e)
      ∙ lease_tag_value-filter q tags ys h)
]

-- A lease's tags read back.
pub expires_of_tags :
    (g : LeaseGrant)
    → lease_tag_value (lease_tags g) lease_expires_tag_prefix ≡ some (to_string g.expires_at)
unfolding lease_tags clash
expires_of_tags g =
    lease_tag_value-clash _ lease_scope_tag_prefix _ _ refl
    ∙ (lease_tag_value-clash _ lease_id_tag_prefix _ _ refl
        ∙ (lease_tag_value-clash _ lease_generation_tag_prefix _ _ refl
            ∙ lease_tag_value-found lease_expires_tag_prefix _ _))

pub grace_of_tags :
    (g : LeaseGrant)
    → lease_tag_value (lease_tags g) lease_grace_tag_prefix ≡ some (to_string g.grace_secs)
unfolding lease_tags clash
grace_of_tags g =
    lease_tag_value-clash _ lease_scope_tag_prefix _ _ refl
    ∙ (lease_tag_value-clash _ lease_id_tag_prefix _ _ refl
        ∙ (lease_tag_value-clash _ lease_generation_tag_prefix _ _ refl
            ∙ (lease_tag_value-clash _ lease_expires_tag_prefix _ _ refl
                ∙ lease_tag_value-found lease_grace_tag_prefix _ _)))

pub policy_of_tags :
    (g : LeaseGrant)
    → lease_tag_value (lease_tags g) lease_policy_tag_prefix ≡ some (policy_name g.expiry_policy)
unfolding lease_tags clash
policy_of_tags g =
    lease_tag_value-clash _ lease_scope_tag_prefix _ _ refl
    ∙ (lease_tag_value-clash _ lease_id_tag_prefix _ _ refl
        ∙ (lease_tag_value-clash _ lease_generation_tag_prefix _ _ refl
            ∙ (lease_tag_value-clash _ lease_expires_tag_prefix _ _ refl
                ∙ (lease_tag_value-clash _ lease_grace_tag_prefix _ _ refl
                    ∙ lease_tag_value-found lease_policy_tag_prefix _ _))))

pub id_of_tags :
    (g : LeaseGrant) → lease_tag_value (lease_tags g) lease_id_tag_prefix ≡ some g.lease_id
unfolding lease_tags clash
id_of_tags g =
    lease_tag_value-clash _ lease_scope_tag_prefix _ _ refl
    ∙ lease_tag_value-found lease_id_tag_prefix _ _
