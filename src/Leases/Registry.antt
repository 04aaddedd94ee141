-- ===== src/Leases/Registry.antt =====
-- slopd/src/main.rs: the handlers of `LeaseAcquire`, `LeaseRenew`, `LeaseRelease` and `LeaseAttach`,
-- and `refresh_attached_lease_tags`. The clock and the fresh UUID are arguments of a call; so is
-- `tmux_ok`, which tells for a pane whether tmux takes its options.
use slopd.Base.{
  ℕ, String, Bool, true, false, not, ◌&&◌, ◌||◌, Option, none, some, List, [], ◌∷◌, Map, get,
  insert, string_eq, Result, ok, err, ltb, leb, nat_eq, length, option_beq, saturating_add, ◌==◌,
  if◌then◌else◌,
}
use slopd.Base.Utf8.{as_bytes}
use slopd.Leases.Tags.{LeaseExpiryPolicy, LeaseGrant, attached_lease_id, with_lease_tags}

pub record LeaseState : Type 0 where
  pub grant : LeaseGrant
  pub released : Bool

-- The registry, and the tags of the managed panes.
pub record Leases : Type 0 where
  pub registry : Map String LeaseState
  pub panes : Map String (List String)

pub data LeaseError : Type 0 where
  bad_scope bad_ttl bad_grace : LeaseError
  not_valid not_active : LeaseError
  not_managed tmux_failed : LeaseError

abbrev next_generation : Option LeaseState → ℕ
next_generation none = 1
next_generation (some l) = saturating_add l.grant.generation 1

abbrev is_bad_scope : String → Bool
is_bad_scope scope = let n = length (as_bytes scope) in nat_eq n 0 || ltb 256 n

abbrev pub new_grant :
    (now : ℕ)
    → (lease_id scope : String) → (ttl_secs grace_secs : ℕ) → LeaseExpiryPolicy
    → Map String LeaseState
    → LeaseGrant
new_grant now lease_id scope ttl_secs grace_secs policy registry = record {
  lease_id = lease_id;
  scope = scope;
  generation = next_generation (get registry scope);
  ttl_secs = ttl_secs;
  expires_at = saturating_add now ttl_secs;
  grace_secs = grace_secs;
  expiry_policy = policy;
}

unfoldable pub lease_acquire :
    (now : ℕ)
    → (lease_id scope : String) → (ttl_secs grace_secs : ℕ) → LeaseExpiryPolicy
    → Leases
    → Result LeaseError LeaseGrant × Leases
unfolding as_bytes
lease_acquire now lease_id scope ttl_secs grace_secs policy s =
    if is_bad_scope scope
    then (err bad_scope, s)
    else if nat_eq ttl_secs 0 || ltb 86400 ttl_secs
    then (err bad_ttl, s)
    else if ltb 604800 grace_secs
    then (err bad_grace, s)
    else (let grant = new_grant now lease_id scope ttl_secs grace_secs policy s.registry in
        (
          ok grant,
          record s {
            registry = insert scope (record { grant = grant; released = false }) s.registry;
          },
        ))

-- The tests of the `find`s.
abbrev pub is_active : String → ℕ → LeaseState → Bool
is_active lease_id generation l =
    not l.released && l.grant.lease_id == lease_id && nat_eq l.grant.generation generation

abbrev pub is_valid : ℕ → String → ℕ → LeaseState → Bool
is_valid now lease_id generation l =
    not l.released
    && leb now l.grant.expires_at
    && l.grant.lease_id == lease_id
    && nat_eq l.grant.generation generation

-- `values_mut().find(…)` and the change of what it finds.
unfoldable pub change_first :
    (LeaseState → Bool)
    → (LeaseState → LeaseState)
    → Map String LeaseState
    → Option (LeaseGrant × Map String LeaseState)
change_first p f [] = none
change_first p f ((k, l) ∷ m) =
    let rest = change_first p f m in
    if p l
    then some ((f l).grant, (k, f l) ∷ m)
    else elim rest [ none ↦ none | some (g, n) ↦ some (g, (k, l) ∷ n) ]

abbrev refresh_pane : (String → Bool) → LeaseGrant → String → List String → List String
refresh_pane tmux_ok grant id tags =
    if option_beq (attached_lease_id tags) (some grant.lease_id) && tmux_ok id
    then with_lease_tags tags grant
    else tags

unfoldable pub refresh_attached_lease_tags :
    (String → Bool) → LeaseGrant → Map String (List String) → Map String (List String)
refresh_attached_lease_tags tmux_ok grant [] = []
refresh_attached_lease_tags tmux_ok grant ((id, tags) ∷ panes) =
    (id, refresh_pane tmux_ok grant id tags) ∷ refresh_attached_lease_tags tmux_ok grant panes

abbrev pub after_change :
    (String → Bool)
    → LeaseError
    → Option (LeaseGrant × Map String LeaseState)
    → Leases
    → Result LeaseError LeaseGrant × Leases
after_change tmux_ok e none s = (err e, s)
after_change tmux_ok e (some (grant, registry)) s = (
  ok grant,
  record { registry = registry; panes = refresh_attached_lease_tags tmux_ok grant s.panes },
)

abbrev pub renewed : ℕ → LeaseState → LeaseState
renewed now l = record l {
  grant = record l.grant { expires_at = saturating_add now l.grant.ttl_secs };
}

unfoldable pub lease_renew :
    (String → Bool)
    → (now : ℕ) → (lease_id : String) → (generation : ℕ) → Leases
    → Result LeaseError LeaseGrant × Leases
unfolding change_first refresh_attached_lease_tags
lease_renew tmux_ok now lease_id generation s =
    after_change tmux_ok not_valid
      (change_first (is_valid now lease_id generation) (renewed now) s.registry) s

abbrev pub release_at : ℕ → LeaseState → LeaseState
release_at now l = record { grant = record l.grant { expires_at = now }; released = true }

unfoldable pub lease_release :
    (String → Bool)
    → (now : ℕ) → (lease_id : String) → (generation : ℕ) → Leases
    → Result LeaseError LeaseGrant × Leases
unfolding change_first refresh_attached_lease_tags
lease_release tmux_ok now lease_id generation s =
    after_change tmux_ok not_active
      (change_first (is_active lease_id generation) (release_at now) s.registry) s

-- `values().find(…)`
unfoldable pub find_valid : ℕ → String → ℕ → Map String LeaseState → Option LeaseGrant
find_valid now lease_id generation [] = none
find_valid now lease_id generation ((k, l) ∷ m) =
    let rest = find_valid now lease_id generation m in
    if is_valid now lease_id generation l then some l.grant else rest

-- `managed_panes` and the map of panes name the same panes.
unfoldable pub lease_attach :
    (String → Bool)
    → (now : ℕ) → (pane_id lease_id : String) → (generation : ℕ) → Leases
    → Result LeaseError String × Leases
unfolding find_valid
lease_attach tmux_ok now pane_id lease_id generation s = elim (get s.panes pane_id) [
  | none ↦ (err not_managed, s)
  | some tags ↦ elim (find_valid now lease_id generation s.registry) [
    | none ↦ (err not_valid, s)
    | some grant ↦
        if tmux_ok pane_id
        then (ok pane_id, record s { panes = insert pane_id (with_lease_tags tags grant) s.panes })
        else (err tmux_failed, s)
  ]
]
