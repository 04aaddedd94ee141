-- ===== src/Acp/Room.antt =====
-- slopd-acp/src/adapter.rs: evicting panes until the limit is kept.
use slopd.Base.{
  ℕ, ◌+◌, String, Bool, true, false, ◌||◌, Option, none, some, get, ok, err, is_some, is_none,
  and_then, find, ◌==◌, string_eq, eq_iff, ◌≡◌, ◌≢◌, refl, sym, ap, ◌∙◌, subst, arith, inl, inr,
  Bool-cases, Option-cases,
}
use slopd.Pane.Info.{GraveEntry}
use slopd.Acp.Session.{
  Session, Adapter, AdapterError, every_pane_active, kill_failed, panicked, modify, live_count,
}
use slopd.Acp.Eviction.{
  Outcome, EvictionReply, capture_latest_grave, capture_found, captured, is_grave_of, evict_at,
  without_pane, given_back, evict_found, victim_of, evict_lru_inactive, is_evictable,
}
use slopd.Acp.Catalog.{
  IsDistinct, live, get-modify_self, get-modify_other, modify-IsDistinct, live_count-modify,
  live_count-modify_same,
}
use slopd.Acp.Victims.{IsVictim, victim_of-IsVictim}

-- A session with an active turn stays as it is.
abbrev pub Keeps : Adapter → Adapter → Type 0
Keeps a b =
    (j : String) (s : Session)
    → get a.sessions j ≡ some s
    → is_some s.active_turn ≡ true
    → get b.sessions j ≡ some s

-- What an eviction of a session does to the catalog, if the pane is gone afterwards.
pub record Evicted (id : String) (a b : Adapter) : Type 0 where
  pub count : live_count b.sessions + 1 ≡ live_count a.sessions
  pub distinct : IsDistinct a.sessions → IsDistinct b.sessions
  pub others : (j : String) → (id == j) ≡ false → get b.sessions j ≡ get a.sessions j
  pub limit : b.max_sessions ≡ a.max_sessions

capture_found-Evicted :
    (id : String) (o : Option GraveEntry) (a b : Adapter)
    → Evicted id a b
    → Evicted id a (capture_found o id b)
capture_found-Evicted id none a b h = h
capture_found-Evicted id (some g) a b h = record {
  count =
      ap (λ (n : ℕ). n + 1) (live_count-modify_same id (captured g) b.sessions (λ s. refl))
      ∙ h.count;
  distinct = λ d. modify-IsDistinct id (captured g) b.sessions (h.distinct d);
  others = λ j n. get-modify_other id j (captured g) b.sessions n ∙ h.others j n;
  limit = h.limit;
}

taken-Evicted :
    (id : String) (s : Session) (a : Adapter)
    → IsVictim a.sessions id s
    → Evicted id a (record a { sessions = modify id without_pane a.sessions })
taken-Evicted id s a v = record {
  count = omega (arith, live_count-modify id without_pane a.sessions s v.0, evictable-live s v.1);
  distinct = λ d. modify-IsDistinct id without_pane a.sessions d;
  others = λ j n. get-modify_other id j without_pane a.sessions n;
  limit = refl;
}
  where
    evictable-live : (s : Session) → is_evictable s ≡ true → live s ≡ 1
    evictable-live s h = ground (arith, h)

Evicted-Keeps :
    (id : String) (s : Session) (a b : Adapter)
    → IsVictim a.sessions id s
    → ((j : String) → (id == j) ≡ false → get b.sessions j ≡ get a.sessions j)
    → Keeps a b
Evicted-Keeps id s a b v others j t found active = elim (Bool-cases (id == j)) [
  | inl e ↦ absurd (clash s t v.1 active (ap (get a.sessions) ((eq_iff id j).0 e)) v.0 found)
  | inr e ↦ others j e ∙ found
]
  where
    is_active : Option Session → Bool
    is_active none = false
    is_active (some s) = is_some s.active_turn

    clash :
        (s t : Session)
        → is_evictable s ≡ true
        → is_some t.active_turn ≡ true
        → get a.sessions id ≡ get a.sessions j
        → get a.sessions id ≡ some s
        → get a.sessions j ≡ some t
        → ⊥
    clash s t h k e f g =
        let same : ◌≡◌ {A = Option Session} (some s) (some t) = sym f ∙ e ∙ g in
        ground (arith, h, k, ap is_active same)

-- What an eviction leaves that fails.
pub record Refused (a b : Adapter) : Type 0 where
  pub count : live_count b.sessions ≡ live_count a.sessions
  pub distinct : IsDistinct a.sessions → IsDistinct b.sessions
  pub limit : b.max_sessions ≡ a.max_sessions

restored-Refused :
    (id : String) (s : Session) (a : Adapter)
    → IsVictim a.sessions id s
    → Refused a
        (record a { sessions = modify id (given_back s) (modify id without_pane a.sessions) })
restored-Refused id s a v = record {
  count = omega (
    arith,
    live_count-modify id without_pane a.sessions s v.0,
    live_count-modify id (given_back s) (modify id without_pane a.sessions) (without_pane s)
        (get-modify_self id without_pane a.sessions v.0),
  );
  distinct = λ d.
      modify-IsDistinct id (given_back s) (modify id without_pane a.sessions)
        (modify-IsDistinct id without_pane a.sessions d);
  limit = refl;
}

-- The two outcomes of an eviction of the least recently used session.
pub data EvictionResult (a : Adapter) : Outcome → Type 0 where
  done :
      (id : String) (s : Session) (b : Adapter)
      → victim_of a.sessions ≡ some (id, s)
      → Evicted id a b
      → Keeps a b
      → EvictionResult a (ok tt, b)
  failed :
      (e : AdapterError) (b : Adapter)
      → e ≢ panicked
      → Keeps a b
      → Refused a b
      → EvictionResult a (err e, b)

evict_found-result :
    (r : EvictionReply) (id : String) (s : Session) (a : Adapter)
    → victim_of a.sessions ≡ some (id, s)
    → IsVictim a.sessions id s
    → EvictionResult a (evict_found r id s a)
unfolding capture_latest_grave
evict_found-result r id s a e v =
    let taken = record a { sessions = modify id without_pane a.sessions } in
    let found = and_then r.graves (find (is_grave_of id)) in
    let gone = capture_found-Evicted id found a taken (taken-Evicted id s a v) in
    rw (inactive s v.1, has_pane s v.1)
      (elim (Bool-cases (r.killed || r.is_gone)) [
        | inl k ↦ rw k (
            done id s (capture_found found id taken) e gone
              (Evicted-Keeps id s a (capture_found found id taken) v gone.others))
        | inr k ↦ rw k (
            failed kill_failed (record a { sessions = modify id (given_back s) taken.sessions })
              (cc)
              (Evicted-Keeps id s a
                (record a { sessions = modify id (given_back s) taken.sessions }) v
                (λ j n.
                  get-modify_other id j (given_back s) taken.sessions n
                  ∙ get-modify_other id j without_pane a.sessions n))
              (restored-Refused id s a v))
      ])
  where
    inactive : (s : Session) → is_evictable s ≡ true → is_some s.active_turn ≡ false
    inactive s h = ground (arith, h)

    has_pane : (s : Session) → is_evictable s ≡ true → is_none s.pane_id ≡ false
    has_pane s h = ground (arith, h)

pub evict_lru_inactive-result :
    (r : EvictionReply) (a : Adapter)
    → IsDistinct a.sessions
    → EvictionResult a (evict_lru_inactive r a)
unfolding evict_lru_inactive
evict_lru_inactive-result r a d = elim (Option-cases (victim_of a.sessions)) [
  | inl e ↦ rw e (
      failed every_pane_active a (λ h. cc) (λ j s found active. found)
        (record { count = refl; distinct = λ h. h; limit = refl }))
  | inr ((id, s), e) ↦
      let v = victim_of-IsVictim a.sessions id s d e in
      rw e (
        subst (λ o. EvictionResult a (evict_at r id o a)) (sym v.0)
          (evict_found-result r id s a e v))
]
