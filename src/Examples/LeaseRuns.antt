-- ===== src/Examples/LeaseRuns.antt =====
-- Leases at concrete calls.
use slopd.Base.{
  ◌<◌, true, false, some, [], ◌∷◌, ◌≡◌, ◌↔◌, refl, arith, eq_iff, get, insert, remove_key,
  string_eq, Result, ok, saturating_add, subst,
}
use slopd.Pane.State.{PaneState}
use slopd.Base.Utf8.{as_bytes}
use slopd.Leases.Tags.{kill, LeaseGrant, with_lease_tags}
use slopd.Leases.Registry.{LeaseState, Leases, lease_acquire}
use slopd.Leases.Superseded.{Reachable, started, acquired, IsEnded, lease_acquire-supersedes}
use slopd.Leases.Ids.{IsFreshId}
use slopd.Leases.Reclaim.{is_reclaimed, is_reclaimed-with_lease_tags}

abbrev a_grant : LeaseGrant
a_grant = record {
  lease_id = "first";
  scope = "editor";
  generation = 1;
  ttl_secs = 60;
  expires_at = 160;
  grace_secs = 30;
  expiry_policy = kill;
}

abbrev a_lease : LeaseState
a_lease = record { grant = a_grant; released = false }

abbrev no_leases : Leases
no_leases = record { registry = []; panes = ("%1", "work" ∷ []) ∷ [] }

abbrev one_lease : Leases
one_lease = record no_leases { registry = ("editor", a_lease) ∷ [] }

first_call : lease_acquire 100 "first" "editor" 60 30 kill no_leases ≡ (ok a_grant, one_lease)
unfolding lease_acquire insert as_bytes get remove_key
first_call = refl

one_lease-Reachable : Reachable one_lease
one_lease-Reachable =
    subst (λ (r : Result _ LeaseGrant × Leases). Reachable r.1) first_call
      (acquired 100 "first" "editor" 60 30 kill (started (("%1", "work" ∷ []) ∷ [])) tt)

second-IsFreshId : IsFreshId "second" one_lease.registry
second-IsFreshId = ((λ e. ground (arith, eq_iff "first" "second")), tt)

abbrev second_grant : LeaseGrant
second_grant = record a_grant { lease_id = "second"; generation = 2; expires_at = 180 }

second_call : (lease_acquire 120 "second" "editor" 60 30 kill one_lease).0 ≡ ok second_grant
unfolding lease_acquire insert as_bytes get remove_key
second_call = refl

found : get one_lease.registry "editor" ≡ some a_lease
unfolding get
found = refl

lease_acquire-supersedes_example :
    IsEnded "first" (lease_acquire 120 "second" "editor" 60 30 kill one_lease).1
lease_acquire-supersedes_example =
    lease_acquire-supersedes one_lease 120 "second" "editor" 60 30 kill a_lease second_grant
      one_lease-Reachable found second-IsFreshId second_call

is_reclaimed-with_lease_tags_example :
    (is_reclaimed 200 PaneState.ready (with_lease_tags ("slop-lease-id-old" ∷ "work" ∷ []) a_grant)
      ≡ true)
    ↔ ((PaneState.ready ≡ PaneState.ready) × (kill ≡ kill) × (saturating_add 160 30 < 200))
is_reclaimed-with_lease_tags_example =
    is_reclaimed-with_lease_tags 200 PaneState.ready ("slop-lease-id-old" ∷ "work" ∷ []) a_grant
      (omega arith) (omega arith)
