-- ===== src/Journal/Recording.antt =====
-- slopd/src/journal.rs: the appends of the journal and its invariant.
use slopd.Base.{
  ℕ, String, Bool, true, Option, none, some, List, [], ◌∷◌, ◌≡◌, ◌≢◌, refl, ap, Map, get, insert,
  string_eq, get-insert, map_option, arith, eq_iff, eq_refl, Bool-cases, All, inl, inr,
}
use slopd.Pane.Info.{PaneInfo, GraveEntry}
use slopd.Pane.Recovery.{recovery, same_recovery_metadata_iff}
use slopd.Journal.Event.{
  GenerationKey, generation_eq, generation_key_eq, JournalEvent, pane, destroyed,
}
use slopd.Journal.Replay.{read_generation, apply_event}
use slopd.Journal.Io.{
  Journal, Triple, Triple-bind, Holds-attempt, Holds-weaken, ◌>>=◌, modify, current_file,
  write_event, append_event, sync_data,
}
use slopd.Journal.Writer.{
  put_version, record_pane, record_panes, unchanged, record_destroyed, record_revived,
  resolve_restore,
}
use slopd.Journal.Synced.{
  Agrees, Synced, VersionOf, read-write_event, Agrees-destroyed, Agrees-revived,
  Agrees-restore_resolved, Agrees-pane,
}
use slopd.Journal.Distinct.{IsFresh, IsDistinct}

-- An append, by what it does when it is written and when it fails.
pub append_event-Triple :
    (P : Journal → Type 0) (Q : Journal → Type 0) (E : Journal → Type 0) (e : JournalEvent)
    → ((j : Journal) (rest : List Bool) → P j → Q (record (write_event e j) { faults = rest }))
    → ((j : Journal) (rest : List Bool) → P j → E (record j { faults = rest }))
    → Triple P (append_event e) (λ _. Q) E
unfolding append_event
append_event-Triple P Q E e done failed = record {
  run = λ j h.
      Holds-attempt (λ _. Q) E j.faults _ _ (λ rest. done j rest h) (λ rest. failed j rest h);
}

pub sync_data-Triple :
    (P : Journal → Type 0) (E : Journal → Type 0)
    → ((j : Journal) (rest : List Bool) → P j → P (record j { faults = rest }))
    → ((j : Journal) (rest : List Bool) → P j → E (record j { faults = rest }))
    → Triple P sync_data (λ _. P) E
unfolding sync_data
sync_data-Triple P E done failed = record {
  run = λ j h.
      Holds-attempt (λ _. P) E j.faults _ _ (λ rest. done j rest h) (λ rest. failed j rest h);
}

-- An event that changes nothing a restore consumes.
append_event-Synced :
    (e : JournalEvent)
    → ((j : Journal)
        → Synced j
        → Agrees
            (apply_event (read_generation (current_file j)) e)
            j.generation
            j.pane_versions
            j.checkpoint)
    → Triple Synced (append_event e) (λ _. Synced) Synced
append_event-Synced e absorbs =
    append_event-Triple Synced Synced Synced e (λ j rest h. rw (read-write_event e j) (absorbs j h))
      (λ j rest h. h)

sync_data-Synced : Triple Synced sync_data (λ _. Synced) Synced
sync_data-Synced = sync_data-Triple Synced Synced (λ j rest h. h) (λ j rest h. h)

pub record_destroyed-Synced :
    (entry : GraveEntry) → Triple Synced (record_destroyed entry) (λ _. Synced) Synced
unfolding record_destroyed
record_destroyed-Synced entry =
    Triple-bind (λ _. Synced) (λ _. Synced) Synced Synced _ _
      (append_event-Synced (destroyed entry) (λ j h. Agrees-destroyed entry h))
      (λ _. sync_data-Synced)

pub record_revived-Synced :
    (at : ℕ) (grave_id pane_id : String)
    → Triple Synced (record_revived at grave_id pane_id) (λ _. Synced) Synced
unfolding record_revived
record_revived-Synced at grave_id pane_id = record {
  run = λ j.
      (Triple-bind (λ _. Synced) (λ _. Synced) Synced Synced _ _
          (append_event-Synced _ (λ _ h. Agrees-revived at grave_id pane_id _ _ h))
          (λ _. sync_data-Synced)).run
        j;
}

pub resolve_restore-Synced :
    (at : ℕ) (source : GenerationKey) (action : String)
    → Triple Synced (resolve_restore at source action) (λ _. Synced) Synced
unfolding resolve_restore
resolve_restore-Synced at source action = record {
  run = λ j h. elim (Bool-cases (generation_eq source j.generation)) [
    | inl e ↦ rw e h
    | inr e ↦ rw e (
        (Triple-bind (λ _. Synced) (λ _. Synced) Synced Synced _ _
            (append_event-Synced _ (λ _ k. Agrees-restore_resolved at source action k))
            (λ _. sync_data-Synced)).run
          j h)
  ];
}

-- The panes of `done` have their latest versions recorded.
abbrev pub Recorded : List PaneInfo → Journal → Type 0
Recorded panes j = Synced j × All (VersionOf j.pane_versions) panes

VersionOf-insert_ne :
    (versions : Map String PaneInfo) (p q : PaneInfo)
    → q.pane_id ≢ p.pane_id
    → VersionOf versions q
    → VersionOf (insert p.pane_id p versions) q
VersionOf-insert_ne versions p q ne h =
    rw (get-insert p.pane_id q.pane_id p versions) (ground (arith, h, eq_iff p.pane_id q.pane_id))

All-VersionOf-insert :
    (versions : Map String PaneInfo) (p : PaneInfo) (done : List PaneInfo)
    → All (λ q. q.pane_id ≢ p.pane_id) done
    → All (VersionOf versions) done
    → All (VersionOf (insert p.pane_id p versions)) done
All-VersionOf-insert versions p [] ne h = tt
All-VersionOf-insert versions p (q ∷ done) ne h =
    (VersionOf-insert_ne versions p q ne.0 h.0, All-VersionOf-insert versions p done ne.1 h.1)

VersionOf-insert_self :
    (versions : Map String PaneInfo) (p : PaneInfo) → VersionOf (insert p.pane_id p versions) p
VersionOf-insert_self versions p =
    rw (get-insert p.pane_id p.pane_id p versions, eq_refl p.pane_id) refl

-- An unchanged pane's recorded version is already its own.
unchanged-VersionOf :
    (versions : Map String PaneInfo) (p : PaneInfo)
    → unchanged p (get versions p.pane_id) ≡ true
    → VersionOf versions p
unchanged-VersionOf versions p h = go (get versions p.pane_id) h
  where
    go : (o : Option PaneInfo) → unchanged p o ≡ true → map_option recovery o ≡ some (recovery p)
    go none h = cc
    go (some q) h = ap some ((same_recovery_metadata_iff q p).0 h)

-- The append of a pane and the update of its version, taken together.
append_version :
    (at : ℕ) (p : PaneInfo) (done : List PaneInfo)
    → All (λ q. q.pane_id ≢ p.pane_id) done
    → Triple
        (Recorded done)
        (append_event (pane at p) >>= λ _. modify (put_version p))
        (λ _. Recorded (p ∷ done))
        Synced
append_version at p done fresh =
    Triple-bind (λ _. written) (λ _. Recorded (p ∷ done)) Synced (Recorded done) _ _
      (append_event-Triple (Recorded done) written Synced (pane at p)
        (λ j rest h. (
          rw (read-write_event (pane at p) j) (Agrees-pane at p h.0),
          (
            VersionOf-insert_self j.pane_versions p,
            All-VersionOf-insert j.pane_versions p done fresh h.1,
          ),
        ))
        (λ j rest h. h.0))
      (λ _. record { run = λ j h. h })
  where
    written : Journal → Type 0
    written j = Recorded (p ∷ done) (put_version p j)

record_pane-Recorded :
    (at : ℕ) (p : PaneInfo) (done : List PaneInfo)
    → All (λ q. q.pane_id ≢ p.pane_id) done
    → Triple (Recorded done) (record_pane at p) (λ _. Recorded (p ∷ done)) Synced
unfolding record_pane
record_pane-Recorded at p done fresh = record {
  run = λ j h. elim (Bool-cases (unchanged p (get j.pane_versions p.pane_id))) [
    | inl e ↦ rw e (h.0, (unchanged-VersionOf j.pane_versions p e, h.1))
    | inr e ↦ rw e ((append_version at p done fresh).run j h)
  ];
}

-- The panes still to come leave the versions of those that are done.
All-IsFresh_tail :
    (p : PaneInfo) (ps done : List PaneInfo)
    → All (λ q. IsFresh q (p ∷ ps)) done
    → All (λ q. q.pane_id ≢ p.pane_id) done × All (λ q. IsFresh q ps) done
All-IsFresh_tail p ps [] h = (tt, tt)
All-IsFresh_tail p ps (q ∷ done) h =
    let rest = All-IsFresh_tail p ps done h.1 in ((h.0.0, rest.0), (h.0.1, rest.1))

pub record_panes-Recorded :
    (at : ℕ) (ps done : List PaneInfo)
    → IsDistinct ps
    → All (λ q. IsFresh q ps) done
    → Triple
        (Recorded done)
        (record_panes at ps)
        (λ _ j. Recorded done j × All (VersionOf j.pane_versions) ps)
        Synced
unfolding record_panes
record_panes-Recorded at [] done d fresh = record { run = λ j h. (h, tt) }
record_panes-Recorded at (p ∷ ps) done d fresh =
    let apart = All-IsFresh_tail p ps done fresh in
    Triple-bind (λ _. Recorded (p ∷ done))
      (λ _ j. Recorded done j × All (VersionOf j.pane_versions) (p ∷ ps)) Synced (Recorded done) _ _
      (record_pane-Recorded at p done apart.0)
      (λ _. record {
        run = λ j h.
            Holds-weaken (λ _ k. Recorded (p ∷ done) k × All (VersionOf k.pane_versions) ps) _
              Synced Synced (record_panes at ps j) (λ _ k g. ((g.0.0, g.0.1.1), (g.0.1.0, g.1)))
              (λ k g. g) ((record_panes-Recorded at ps (p ∷ done) d.1 (d.0, apart.1)).run j h);
      })
