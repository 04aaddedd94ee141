-- ===== src/Journal/Keyed.antt =====
-- slopd/src/journal.rs: the operations of the journal and the generation of the file they write to.
use slopd.Base.{
  ℕ, String, Bool, some, List, [], ◌∷◌, ◌++◌, ◌≡◌, refl, ap, ◌∙◌, get, string_eq, arith, Bool-cases,
  inl, inr,
}
use slopd.Pane.Info.{PaneInfo, GraveEntry}
use slopd.Pane.Recovery.{same_recovery_checkpoint}
use slopd.Journal.Event.{
  GenerationKey, generation_eq, generation_key_eq, JournalEvent, generation, pane, checkpoint,
  destroyed, revived, restore_resolved,
}
use slopd.Journal.Replay.{GenerationState, read_generation, apply_event, read_generation-append}
use slopd.Journal.Io.{
  Journal, Io, Triple, Triple-bind, Holds-attempt, ◌>>=◌, pure, modify, current_file, write_event,
  append_event, sync_data,
}
use slopd.Journal.Writer.{
  pane_ids, put_version, record_pane, record_panes, unchanged, with_checkpoint, keep_live,
  recoverable, write_checkpoint, checkpoint_panes, record_destroyed, record_revived,
  resolve_restore,
}
use slopd.Journal.Synced.{read-write_event}
use slopd.Journal.Directory.{IsKeyed, insert-IsKeyed}

-- The directory is keyed, and the current file begins with the current generation's header.
pub record KeyedAt (j : Journal) : Type 0 where
  pub keyed : IsKeyed j.dir
  pub headed : (read_generation (current_file j)).key ≡ some j.generation

-- All events but the header.
abbrev IsBody : JournalEvent → Type 0
IsBody (generation version started_at boot session) = ⊥
IsBody _ = Unit

key-apply_event :
    (st : GenerationState) (e : JournalEvent) → IsBody e → (apply_event st e).key ≡ st.key
unfolding apply_event
key-apply_event st (generation version started_at boot session) b = absurd b
key-apply_event st (restore_resolved at source action) b = ground arith
key-apply_event st _ b = refl

write_event-KeyedAt :
    (e : JournalEvent) (j : Journal) → IsBody e → KeyedAt j → KeyedAt (write_event e j)
write_event-KeyedAt e j b h =
    let still : (read_generation (current_file (write_event e j))).key ≡ some j.generation =
      ap (λ (st : GenerationState). st.key) (read-write_event e j)
      ∙ (key-apply_event _ e b ∙ h.headed) in
    record {
      keyed =
          insert-IsKeyed j.dir j.generation (current_file j ++ e ∷ [])
            (inr (
              ap (λ (st : GenerationState). st.key) (read_generation-append (current_file j) e)
              ∙ (key-apply_event _ e b ∙ h.headed)))
            h.keyed;
      headed = still;
    }

refault : (j : Journal) (rest : List Bool) → KeyedAt j → KeyedAt (record j { faults = rest })
refault j rest h = record { keyed = h.keyed; headed = h.headed }

append_event-KeyedAt :
    (e : JournalEvent) → IsBody e → Triple KeyedAt (append_event e) (λ _. KeyedAt) KeyedAt
unfolding append_event
append_event-KeyedAt e b = record {
  run = λ j h.
      Holds-attempt (λ _. KeyedAt) KeyedAt j.faults _ _
        (λ rest. refault (write_event e j) rest (write_event-KeyedAt e j b h))
        (λ rest. refault j rest h);
}

sync_data-KeyedAt : Triple KeyedAt sync_data (λ _. KeyedAt) KeyedAt
unfolding sync_data
sync_data-KeyedAt = record {
  run = λ j h.
      Holds-attempt (λ _. KeyedAt) KeyedAt j.faults _ _ (λ rest. refault j rest h)
        (λ rest. refault j rest h);
}

-- A change of the memory alone.
modify-KeyedAt :
    (f : Journal → Journal)
    → ((j : Journal) → KeyedAt j → KeyedAt (f j))
    → Triple KeyedAt (modify f) (λ _. KeyedAt) KeyedAt
modify-KeyedAt f h = record { run = h }

module _ {A B : Type 0} where
  keyed_bind :
      (m : Io A) (f : A → Io B)
      → Triple KeyedAt m (λ _. KeyedAt) KeyedAt
      → ((a : A) → Triple KeyedAt (f a) (λ _. KeyedAt) KeyedAt)
      → Triple KeyedAt (m >>= f) (λ _. KeyedAt) KeyedAt
  keyed_bind m f km kf = Triple-bind (λ _. KeyedAt) (λ _. KeyedAt) KeyedAt KeyedAt m f km kf

keyed_pure : {A : Type 0} (a : A) → Triple KeyedAt (pure a) (λ _. KeyedAt) KeyedAt
keyed_pure a = record { run = λ j h. h }

append_sync :
    (e : JournalEvent)
    → IsBody e
    → Triple KeyedAt (append_event e >>= λ _. sync_data) (λ _. KeyedAt) KeyedAt
append_sync e b =
    keyed_bind (append_event e) (λ _. sync_data) (append_event-KeyedAt e b) (λ _. sync_data-KeyedAt)

pub record_destroyed-KeyedAt :
    (entry : GraveEntry) → Triple KeyedAt (record_destroyed entry) (λ _. KeyedAt) KeyedAt
unfolding record_destroyed
record_destroyed-KeyedAt entry = append_sync (destroyed entry) tt

pub record_revived-KeyedAt :
    (at : ℕ) (grave_id pane_id : String)
    → Triple KeyedAt (record_revived at grave_id pane_id) (λ _. KeyedAt) KeyedAt
unfolding record_revived
record_revived-KeyedAt at grave_id pane_id = record {
  run = λ j.
      (append_sync
          (revived at grave_id pane_id j.generation.tmux_boot_id j.generation.tmux_session_id)
          tt).run
        j;
}

pub resolve_restore-KeyedAt :
    (at : ℕ) (source : GenerationKey) (action : String)
    → Triple KeyedAt (resolve_restore at source action) (λ _. KeyedAt) KeyedAt
unfolding resolve_restore
resolve_restore-KeyedAt at source action = record {
  run = λ j h. elim (Bool-cases (generation_eq source j.generation)) [
    | inl e ↦ rw e h
    | inr e ↦ rw e ((append_sync (restore_resolved at source action) tt).run j h)
  ];
}

record_pane-KeyedAt :
    (at : ℕ) (p : PaneInfo) → Triple KeyedAt (record_pane at p) (λ _. KeyedAt) KeyedAt
unfolding record_pane
record_pane-KeyedAt at p = record {
  run = λ j h. elim (Bool-cases (unchanged p (get j.pane_versions p.pane_id))) [
    | inl e ↦ rw e h
    | inr e ↦ rw e (
        (keyed_bind (append_event (pane at p)) (λ _. modify (put_version p))
            (append_event-KeyedAt (pane at p) tt)
            (λ _.
              modify-KeyedAt (put_version p)
                (λ k g. record { keyed = g.keyed; headed = g.headed }))).run
          j h)
  ];
}

record_panes-KeyedAt :
    (at : ℕ) (ps : List PaneInfo) → Triple KeyedAt (record_panes at ps) (λ _. KeyedAt) KeyedAt
unfolding record_panes
record_panes-KeyedAt at [] = keyed_pure tt
record_panes-KeyedAt at (p ∷ ps) =
    keyed_bind (record_pane at p) (λ _. record_panes at ps) (record_pane-KeyedAt at p)
      (λ _. record_panes-KeyedAt at ps)

pub checkpoint_panes-KeyedAt :
    (at : ℕ) (panes : List PaneInfo)
    → Triple KeyedAt (checkpoint_panes at panes) (λ _. KeyedAt) KeyedAt
unfolding checkpoint_panes write_checkpoint
checkpoint_panes-KeyedAt at panes = record {
  run = λ j h. elim (Bool-cases (same_recovery_checkpoint j.checkpoint (recoverable panes))) [
    | inl e ↦ rw e (
        (keyed_bind _ _ sync_data-KeyedAt (λ _.
            keyed_bind _ _
              (modify-KeyedAt (with_checkpoint (recoverable panes))
                (λ k g. record { keyed = g.keyed; headed = g.headed }))
              (λ _. keyed_pure _))).run
          j h)
    | inr e ↦ rw e (
        (keyed_bind _ _ (record_panes-KeyedAt at (recoverable panes)) (λ _.
            keyed_bind _ _ (append_event-KeyedAt (checkpoint at (pane_ids (recoverable panes))) tt)
              (λ _. keyed_bind _ _ sync_data-KeyedAt (λ _.
                keyed_bind _ _
                  (modify-KeyedAt (keep_live (recoverable panes))
                    (λ k g. record { keyed = g.keyed; headed = g.headed }))
                  (λ _. keyed_pure _))))).run
          j h)
  ];
}
