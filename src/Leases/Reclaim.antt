-- ===== src/Leases/Reclaim.antt =====
-- slopd/src/main.rs: `expire_external_owner_leases`, which panes it reclaims.
use slopd.Base.{
  ℕ, ◌≤◌, ◌<◌, String, Bool, true, false, not, ◌&&◌, Option, none, some, List, filter, leb, max_u64,
  saturating_add, and_then, unwrap_or, option_beq, string_eq, ◌≡◌, ◌↔◌, refl, ◌∙◌, arith, contains,
}
use slopd.Base.Decimal.{parse_u64, parse_u64-to_string}
use slopd.Pane.State.{PaneState, simple_eq, simple_eq_iff}
use slopd.Pane.Info.{PaneInfo}
use slopd.Leases.Tags.{
  LeaseExpiryPolicy, preserve, kill, LeaseGrant, lease_tags, lease_tag_value, with_lease_tags,
  policy_name, lease_expires_tag_prefix, lease_grace_tag_prefix, lease_policy_tag_prefix,
  lease_id_tag_prefix, attached_lease_id,
}
use slopd.Leases.TagValues.{
  lease_tag_value-filter, expires_of_tags, grace_of_tags, policy_of_tags, id_of_tags,
}

abbrev is_over : ℕ → Option ℕ → ℕ → Bool
is_over now none grace = false
is_over now (some expires) grace = not (leb now (saturating_add expires grace))

-- The `continue`s of the loop: whether the pane is reclaimed.
unfoldable pub is_reclaimed : ℕ → PaneState → List String → Bool
unfolding lease_tag_value
is_reclaimed now state tags =
    simple_eq state PaneState.ready
    && option_beq (lease_tag_value tags lease_policy_tag_prefix) (some "kill")
    && is_over now (and_then (lease_tag_value tags lease_expires_tag_prefix) parse_u64)
        (unwrap_or (and_then (lease_tag_value tags lease_grace_tag_prefix) parse_u64) 0)

-- The panes that the pass kills.
unfoldable pub expire_external_owner_leases : ℕ → List PaneInfo → List PaneInfo
unfolding is_reclaimed
expire_external_owner_leases now live = filter (λ p. is_reclaimed now p.state p.tags) live

-- The pane that carries a grant is the grant's: its attached id is the grant's own.
pub attached_lease_id-with_lease_tags :
    (tags : List String) (g : LeaseGrant)
    → attached_lease_id (with_lease_tags tags g) ≡ some g.lease_id
unfolding attached_lease_id with_lease_tags contains
attached_lease_id-with_lease_tags tags g =
    lease_tag_value-filter lease_id_tag_prefix tags (lease_tags g) refl ∙ id_of_tags g

is_kill :
    (p : LeaseExpiryPolicy) → (option_beq (some (policy_name p)) (some "kill") ≡ true) ↔ (p ≡ kill)
unfolding option_beq
is_kill preserve = ground arith
is_kill kill = ground arith

reclaim_test :
    (now : ℕ) (state : PaneState) (p : LeaseExpiryPolicy) (e g : ℕ)
    → ((simple_eq state PaneState.ready
          && option_beq (some (policy_name p)) (some "kill")
          && is_over now (some e) g)
        ≡ true)
      ↔ ((state ≡ PaneState.ready) × (p ≡ kill) × (saturating_add e g < now))
reclaim_test now state p e g =
    let states = simple_eq_iff state PaneState.ready in let policies = is_kill p in ground arith

-- A pane to which a grant was attached, whatever tags it had, is reclaimed exactly when it is
-- ready, the grant's policy is to kill, and the grant's expiry and its grace after it have passed.
-- Both times are `u64`s.
pub is_reclaimed-with_lease_tags :
    (now : ℕ) (state : PaneState) (tags : List String) (g : LeaseGrant)
    → g.expires_at ≤ max_u64
    → g.grace_secs ≤ max_u64
    → (is_reclaimed now state (with_lease_tags tags g) ≡ true) ↔ (
        (state ≡ PaneState.ready)
        × (g.expiry_policy ≡ kill)
        × (saturating_add g.expires_at g.grace_secs < now))
unfolding is_reclaimed with_lease_tags contains
is_reclaimed-with_lease_tags now state tags g he hg =
    let policy =
      lease_tag_value-filter lease_policy_tag_prefix tags (lease_tags g) refl ∙ policy_of_tags g in
    let expires =
      lease_tag_value-filter lease_expires_tag_prefix tags (lease_tags g) refl
      ∙ expires_of_tags g in
    let grace =
      lease_tag_value-filter lease_grace_tag_prefix tags (lease_tags g) refl ∙ grace_of_tags g in
    rw
      (
        policy,
        expires,
        grace,
        parse_u64-to_string g.expires_at he,
        parse_u64-to_string g.grace_secs hg,
      )
      (reclaim_test now state g.expiry_policy g.expires_at g.grace_secs)
