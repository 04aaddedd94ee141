-- ===== src/Acp/Trim.antt =====
-- slopd-acp/src/adapter.rs: `trim_recovered_panes` and `make_live_pane_room`.
use slopd.Base.{
  ◌⊎◌, ℕ, zero, suc, ◌+◌, ◌≤◌, ◌<◌, String, Option, some, List, [], ◌∷◌, All, Result, ok, err, leb,
  ◌≡◌, ◌≢◌, refl, ap, subst, arith, inl, inr, Bool-cases, string_eq,
}
use slopd.Pane.Info.{PaneInfo}
use slopd.Acp.Session.{Session, Adapter, AdapterError, panicked, live_count}
use slopd.Acp.Eviction.{
  Outcome, EvictionReply, evict_lru_inactive, trim_recovered_panes, trim_after,
  reconcile_live_sessions,
}
use slopd.Acp.Catalog.{IsDistinct, reconcile_all-IsDistinct, live_count-reconcile_all}
use slopd.Acp.Victims.{IsVictim, IsLater, victim_of-IsVictim, victim_of-least}
use slopd.Acp.Room.{Keeps, Evicted, EvictionResult, done, failed, evict_lru_inactive-result}

-- What trimming ends with.
abbrev Trimmed : Adapter → Option Outcome → Type 0
Trimmed a result =
    (o : Outcome) × (result ≡ some o)
    × (o.0 ≡ ok tt → live_count o.1.sessions ≤ a.max_sessions)
    × (o.0 ≢ err panicked)
    × Keeps a o.1

error_or : AdapterError → Result AdapterError (Unit {0}) → AdapterError
error_or d (ok u) = d
error_or d (err e) = e

after_eviction :
    (a : Adapter) (x : Outcome) (rest : Adapter → Option Outcome)
    → IsDistinct a.sessions
    → ((b : Adapter)
        → IsDistinct b.sessions
        → live_count b.sessions + 1 ≡ live_count a.sessions
        → Trimmed b (rest b))
    → EvictionResult a x
    → Trimmed a (trim_after x rest)
unfolding error_or
after_eviction a _ rest d h (done id s b e evicted keeps) =
    let t = h b (evicted.distinct d) evicted.count in
    (
      t.0,
      t.1,
      (λ k. subst (λ n. live_count t.0.1.sessions ≤ n) evicted.limit (t.2 k)),
      t.3,
      (λ j s found active. t.4 j s (keeps j s found active) active),
    )
after_eviction a _ rest d h (failed e b ne keeps same) =
    ((err e, b), refl, (λ k. cc), (λ k. ne (ap (error_or e) k)), keeps)

fits : (a : Adapter) → live_count a.sessions ≤ a.max_sessions → Trimmed a (some (ok tt, a))
fits a h = ((ok tt, a), refl, (λ _. h), (λ k. cc), (λ j s found active. found))

trim_recovered_panes-result :
    (fuel : ℕ) (replies : List EvictionReply) (r : EvictionReply) (a : Adapter)
    → IsDistinct a.sessions
    → live_count a.sessions < fuel
    → Trimmed a (trim_recovered_panes fuel replies r a)
unfolding trim_recovered_panes
trim_recovered_panes-result zero replies r a d h = absurd (omega arith)
trim_recovered_panes-result (suc fuel) [] r a d h =
    elim (Bool-cases (leb (live_count a.sessions) a.max_sessions)) [
      | inl e ↦ rw e (fits a (ground (arith, e)))
      | inr e ↦ rw e (
          after_eviction a (evict_lru_inactive r a) (trim_recovered_panes fuel [] r) d
            (λ b distinct count.
              trim_recovered_panes-result fuel [] r b distinct (omega (arith, count)))
            (evict_lru_inactive-result r a d))
    ]
trim_recovered_panes-result (suc fuel) (r ∷ replies) s a d h =
    elim (Bool-cases (leb (live_count a.sessions) a.max_sessions)) [
      | inl e ↦ rw e (fits a (ground (arith, e)))
      | inr e ↦ rw e (
          after_eviction a (evict_lru_inactive r a) (trim_recovered_panes fuel replies s) d
            (λ b distinct count.
              trim_recovered_panes-result fuel replies s b distinct (omega (arith, count)))
            (evict_lru_inactive-result r a d))
    ]

ok_or : (P : Type 0) (x : Result AdapterError (Unit {0})) → (x ≡ ok tt → P) → (x ≢ ok tt) ⊎ P
ok_or P (ok tt) h = inr (h refl)
ok_or P (err e) h = inl (λ k. absurd (ground (arith, k)))

-- Enough fuel is one more than the panes that are live. Trimming then ends; unless it fails, no more
-- panes are live than the limit allows; no `expect` fails; and a session with an active turn is left as
-- it is, whatever the daemon answers. The catalog has each id once.
pub trim_recovered_panes-bounded :
    (fuel : ℕ) (replies : List EvictionReply) (r : EvictionReply) (a : Adapter)
    → IsDistinct a.sessions
    → live_count a.sessions < fuel
    → (o : Outcome) × (trim_recovered_panes fuel replies r a ≡ some o)
      × ((o.0 ≢ ok tt) ⊎ (live_count o.1.sessions ≤ a.max_sessions))
      × (o.0 ≢ err panicked)
      × Keeps a o.1
trim_recovered_panes-bounded fuel replies r a d h =
    let t = trim_recovered_panes-result fuel replies r a d h in
    (t.0, t.1, ok_or (live_count t.0.1.sessions ≤ a.max_sessions) t.0.0 t.2, t.3, t.4)

least_of :
    (a : Adapter) (x : Outcome)
    → IsDistinct a.sessions
    → EvictionResult a x
    → x.0 ≡ ok tt
    → (id : String) × (s : Session) × IsVictim a.sessions id s
      × All (IsLater s.last_used) a.sessions
      × Evicted id a x.1
least_of a _ d (done id s b e evicted keeps) h =
    (id, s, victim_of-IsVictim a.sessions id s d e, victim_of-least a.sessions id s e, evicted)
least_of a _ d (failed e b ne keeps same) h = absurd (ground (arith, h))

-- An eviction that succeeds takes the pane from one session that has a pane and no active turn, and that
-- was used the least recently of all such sessions; one pane fewer is live, and all other sessions are
-- as they were. The catalog has each id once.
pub evict_lru_inactive-least :
    (r : EvictionReply) (a : Adapter)
    → IsDistinct a.sessions
    → (evict_lru_inactive r a).0 ≡ ok tt
    → (id : String) × (s : Session) × IsVictim a.sessions id s
      × All (IsLater s.last_used) a.sessions
      × Evicted id a (evict_lru_inactive r a).1
evict_lru_inactive-least r a d h =
    least_of a (evict_lru_inactive r a) d (evict_lru_inactive-result r a d) h

-- The limit is kept, and each id stands once.
pub record IsBounded (a : Adapter) : Type 0 where
  pub distinct : IsDistinct a.sessions
  pub bound : live_count a.sessions ≤ a.max_sessions

pub reconcile-IsBounded :
    (panes : List PaneInfo) (a : Adapter)
    → IsBounded a
    → IsBounded (reconcile_live_sessions panes a)
unfolding reconcile_live_sessions
reconcile-IsBounded panes a h = record {
  distinct = reconcile_all-IsDistinct panes a.sessions h.distinct;
  bound = omega (arith, live_count-reconcile_all panes a.sessions, h.bound);
}

-- After an operation the limit is kept, and where it succeeded there is room for one pane more.
pub record HasRoom (x : Outcome) : Type 0 where
  pub kept : IsBounded x.1
  pub room : x.0 ≡ ok tt → live_count x.1.sessions + 1 ≤ x.1.max_sessions

pub evicted-HasRoom : (a : Adapter) (x : Outcome) → IsBounded a → EvictionResult a x → HasRoom x
evicted-HasRoom a _ h (done id s b e evicted keeps) = record {
  kept = record {
    distinct = evicted.distinct h.distinct;
    bound = omega (arith, evicted.count, evicted.limit, h.bound);
  };
  room = λ _. omega (arith, evicted.count, evicted.limit, h.bound);
}
evicted-HasRoom a _ h (failed e b ne keeps same) = record {
  kept = record {
    distinct = same.distinct h.distinct;
    bound = omega (arith, same.count, same.limit, h.bound);
  };
  room = λ k. absurd (ground (arith, k));
}
