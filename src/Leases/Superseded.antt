-- ===== src/Leases/Superseded.antt =====
-- slopd/src/main.rs, the lease handlers: a scope that is acquired again.
use slopd.Base.{
  ℕ, String, Bool, false, some, List, [], ◌∷◌, Map, get, insert, remove_key, string_eq, ok, err,
  ◌⊎◌, inl, inr, arith, ◌≡◌, ◌≢◌, refl, sym, subst,
}
use slopd.Leases.Tags.{LeaseExpiryPolicy, LeaseGrant}
use slopd.Leases.Registry.{
  LeaseState, Leases, not_valid, not_active, lease_acquire, lease_renew, lease_release,
  lease_attach, change_first, is_valid, is_active, renewed, release_at, new_grant,
}
use slopd.Leases.Ids.{
  IsFreshId, HaveDistinctIds, change_first-none, not_valid-fresh, not_active-fresh,
  find_valid-fresh, All-remove_key, remove_key-HaveDistinctIds, get-fresh, remove_key-IsFreshId,
  changed-HaveDistinctIds, after_change-registry,
}

-- The registries that the daemon can have: it starts with none, and a UUID is never one that a
-- lease of the registry has.
pub data Reachable : Leases → Type 0 where
  started : (panes : Map String (List String)) → Reachable (record { registry = []; panes = panes })
  acquired :
      {s : Leases} (now : ℕ) (id scope : String) (ttl grace : ℕ) (policy : LeaseExpiryPolicy)
      → Reachable s
      → IsFreshId id s.registry
      → Reachable (lease_acquire now id scope ttl grace policy s).1
  after_renew :
      {s : Leases} (tmux_ok : String → Bool) (now : ℕ) (id : String) (generation : ℕ)
      → Reachable s
      → Reachable (lease_renew tmux_ok now id generation s).1
  after_release :
      {s : Leases} (tmux_ok : String → Bool) (now : ℕ) (id : String) (generation : ℕ)
      → Reachable s
      → Reachable (lease_release tmux_ok now id generation s).1
  after_attach :
      {s : Leases} (tmux_ok : String → Bool) (now : ℕ) (pane id : String) (generation : ℕ)
      → Reachable s
      → Reachable (lease_attach tmux_ok now pane id generation s).1

lease_attach-registry :
    (t : String → Bool) (now : ℕ) (pane id : String) (g : ℕ) (s : Leases)
    → (lease_attach t now pane id g s).1.registry ≡ s.registry
unfolding lease_attach
lease_attach-registry t now pane id g s = ground arith

lease_acquire-registry :
    (now : ℕ) (id scope : String) (ttl grace : ℕ) (policy : LeaseExpiryPolicy) (s : Leases)
    → ((lease_acquire now id scope ttl grace policy s).1.registry ≡ s.registry)
      ⊎ ((lease_acquire now id scope ttl grace policy s).1.registry
          ≡ insert scope
              (record {
                grant = new_grant now id scope ttl grace policy s.registry;
                released = false;
              })
              s.registry)
unfolding lease_acquire
lease_acquire-registry now id scope ttl grace policy s = ground arith

Reachable-HaveDistinctIds : (s : Leases) → Reachable s → HaveDistinctIds s.registry
unfolding insert lease_renew lease_release
Reachable-HaveDistinctIds _ (started panes) = tt
Reachable-HaveDistinctIds _ (acquired {s} now id scope ttl grace policy r fresh) =
    elim (lease_acquire-registry now id scope ttl grace policy s) [
      | inl e ↦ subst HaveDistinctIds (sym e) (Reachable-HaveDistinctIds s r)
      | inr e ↦ subst HaveDistinctIds (sym e) (
        All-remove_key (λ kv. kv.1.grant.lease_id ≢ id) scope s.registry fresh,
        remove_key-HaveDistinctIds scope s.registry (Reachable-HaveDistinctIds s r),
      )
    ]
Reachable-HaveDistinctIds _ (after_renew {s} t now id g r) =
    subst HaveDistinctIds
      (sym (
        after_change-registry t not_valid
          (change_first (is_valid now id g) (renewed now) s.registry) s))
      (changed-HaveDistinctIds (is_valid now id g) (renewed now) (λ l. refl) s.registry
        (Reachable-HaveDistinctIds s r))
Reachable-HaveDistinctIds _ (after_release {s} t now id g r) =
    subst HaveDistinctIds
      (sym (
        after_change-registry t not_active
          (change_first (is_active id g) (release_at now) s.registry) s))
      (changed-HaveDistinctIds (is_active id g) (release_at now) (λ l. refl) s.registry
        (Reachable-HaveDistinctIds s r))
Reachable-HaveDistinctIds _ (after_attach {s} t now pane id g r) =
    subst HaveDistinctIds (sym (lease_attach-registry t now pane id g s))
      (Reachable-HaveDistinctIds s r)

-- No call with the id succeeds at any time.
pub record IsEnded (id : String) (s : Leases) : Type 0 where
  pub no_renewal :
      (t : String → Bool) (now generation : ℕ)
      → (lease_renew t now id generation s).0 ≡ err not_valid
  pub no_release :
      (t : String → Bool) (now generation : ℕ)
      → (lease_release t now id generation s).0 ≡ err not_active
  pub no_attachment :
      (t : String → Bool) (now generation : ℕ) (pane : String)
      → (lease_attach t now pane id generation s).1 ≡ s

fresh-IsEnded : (id : String) (s : Leases) → IsFreshId id s.registry → IsEnded id s
unfolding lease_renew lease_release lease_attach
fresh-IsEnded id s h = record {
  no_renewal = λ t now g.
      rw
        (change_first-none (is_valid now id g) (renewed now) s.registry
          (not_valid-fresh now id g s.registry h))
        refl;
  no_release = λ t now g.
      rw
        (change_first-none (is_active id g) (release_at now) s.registry
          (not_active-fresh id g s.registry h))
        refl;
  no_attachment = λ t now g pane. ground (arith, find_valid-fresh now id g s.registry h);
}

granted-registry :
    (now : ℕ) (id scope : String) (ttl grace : ℕ) (policy : LeaseExpiryPolicy) (s : Leases)
    (grant : LeaseGrant)
    → (lease_acquire now id scope ttl grace policy s).0 ≡ ok grant
    → (lease_acquire now id scope ttl grace policy s).1.registry
      ≡ (
        scope,
        record { grant = new_grant now id scope ttl grace policy s.registry; released = false },
      )
        ∷ remove_key scope s.registry
unfolding lease_acquire insert
granted-registry now id scope ttl grace policy s grant h = ground arith

-- When a scope that has a lease is acquired again, under a fresh id, the earlier lease is over: it
-- can no longer be renewed, released or attached to a pane, at whatever time and generation. This
-- holds in every state that the handlers can reach, if the acquisition is not refused.
pub lease_acquire-supersedes :
    (s : Leases) (now : ℕ) (id scope : String) (ttl grace : ℕ) (policy : LeaseExpiryPolicy)
    (old : LeaseState) (grant : LeaseGrant)
    → Reachable s
    → get s.registry scope ≡ some old
    → IsFreshId id s.registry
    → (lease_acquire now id scope ttl grace policy s).0 ≡ ok grant
    → IsEnded old.grant.lease_id (lease_acquire now id scope ttl grace policy s).1
lease_acquire-supersedes s now id scope ttl grace policy old grant r found fresh granted =
    fresh-IsEnded old.grant.lease_id (lease_acquire now id scope ttl grace policy s).1 (
      subst (IsFreshId old.grant.lease_id)
        (sym (granted-registry now id scope ttl grace policy s grant granted))
        (
          λ c. get-fresh scope old id s.registry fresh found (sym c),
          remove_key-IsFreshId scope old s.registry (Reachable-HaveDistinctIds s r) found,
        ))
