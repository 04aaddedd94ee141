-- ===== src/Journal/Unchanged.antt =====
-- slopd/src/journal.rs: what the operations do to the checkpoint in memory, and a backup of panes that
-- have not changed since the last one.
use slopd.Base.{
  ℕ, String, Bool, true, false, List, [], ◌∷◌, Result, ok, err, length, map, ◌≡◌, refl, sym, ap,
  ◌∙◌, subst, get, string_eq, Bool-cases, inl, inr,
}
use slopd.Pane.Info.{PaneInfo, GraveEntry}
use slopd.Pane.Recovery.{recovery, same_recovery_checkpoint, same_recovery_checkpoint_iff}
use slopd.Journal.Event.{
  GenerationKey, generation_eq, JournalEvent, pane, checkpoint, destroyed, revived,
  restore_resolved,
}
use slopd.Journal.Io.{
  Journal, JournalError, Io, Triple, Triple-bind, Holds, ◌>>=◌, ◌>>◌, pure, modify, attempt,
  continue, append_event, sync_data,
}
use slopd.Journal.Writer.{
  pane_ids, put_version, record_pane, record_panes, unchanged, with_checkpoint, recoverable,
  write_checkpoint, checkpoint_panes, record_destroyed, record_revived, resolve_restore,
}
use slopd.Journal.Recording.{append_event-Triple, sync_data-Triple}

abbrev pub Remembers : List PaneInfo → Journal → Type 0
Remembers panes j = j.checkpoint ≡ panes

-- An action that leaves the checkpoint in memory alone.
abbrev pub Leaves : {A : Type 0} → List PaneInfo → Io A → Type 0
Leaves old m = Triple (Remembers old) m (λ _. Remembers old) (Remembers old)

module _ (old : List PaneInfo) where
  bind-Leaves :
      {A B : Type 0} (m : Io A) (f : A → Io B)
      → Leaves old m
      → ((a : A) → Leaves old (f a))
      → Leaves old (m >>= f)
  bind-Leaves m f h k =
      Triple-bind (λ _. Remembers old) (λ _. Remembers old) (Remembers old) (Remembers old) m f h k

  append_event-Leaves : (e : JournalEvent) → Leaves old (append_event e)
  append_event-Leaves e =
      append_event-Triple (Remembers old) (Remembers old) (Remembers old) e (λ j rest h. h)
        (λ j rest h. h)

  sync_data-Leaves : Leaves old sync_data
  sync_data-Leaves =
      sync_data-Triple (Remembers old) (Remembers old) (λ j rest h. h) (λ j rest h. h)

  append_sync : (e : JournalEvent) → Leaves old (append_event e >>= λ _. sync_data)
  append_sync e =
      bind-Leaves (append_event e) (λ _. sync_data) (append_event-Leaves e) (λ _. sync_data-Leaves)

  pub record_destroyed-Leaves : (entry : GraveEntry) → Leaves old (record_destroyed entry)
  unfolding record_destroyed
  record_destroyed-Leaves entry = append_sync (destroyed entry)

  pub record_revived-Leaves :
      (at : ℕ) (grave_id pane_id : String) → Leaves old (record_revived at grave_id pane_id)
  unfolding record_revived
  record_revived-Leaves at grave_id pane_id = record {
    run = λ j.
        (append_sync (
            revived at grave_id pane_id j.generation.tmux_boot_id j.generation.tmux_session_id)).run
          j;
  }

  pub resolve_restore-Leaves :
      (at : ℕ) (source : GenerationKey) (action : String)
      → Leaves old (resolve_restore at source action)
  unfolding resolve_restore
  resolve_restore-Leaves at source action = record {
    run = λ j h. elim (Bool-cases (generation_eq source j.generation)) [
      | inl e ↦ rw e h
      | inr e ↦ rw e ((append_sync (restore_resolved at source action)).run j h)
    ];
  }

  record_pane-Leaves : (at : ℕ) (p : PaneInfo) → Leaves old (record_pane at p)
  unfolding record_pane
  record_pane-Leaves at p = record {
    run = λ j h. elim (Bool-cases (unchanged p (get j.pane_versions p.pane_id))) [
      | inl e ↦ rw e h
      | inr e ↦ rw e (
          (bind-Leaves (append_event (pane at p)) (λ _. modify (put_version p))
              (append_event-Leaves (pane at p)) (λ _. record { run = λ k g. g })).run
            j h)
    ];
  }

  record_panes-Leaves : (at : ℕ) (ps : List PaneInfo) → Leaves old (record_panes at ps)
  unfolding record_panes
  record_panes-Leaves at [] = record { run = λ j h. h }
  record_panes-Leaves at (p ∷ ps) =
      bind-Leaves (record_pane at p) (λ _. record_panes at ps) (record_pane-Leaves at p)
        (λ _. record_panes-Leaves at ps)

  -- The checkpoint in memory is replaced at the very end or not at all.
  refresh-Remembers :
      (panes : List PaneInfo)
      → Triple
          (Remembers old)
          (sync_data >>= λ _. (modify (with_checkpoint panes) >>= λ _. pure (length panes)))
          (λ _. Remembers panes)
          (Remembers old)
  unfolding ◌>>=◌
  refresh-Remembers panes =
      Triple-bind (λ _. Remembers old) (λ _. Remembers panes) (Remembers old) _ _ _ sync_data-Leaves
        (λ _. record { run = λ j h. refl })

  write_checkpoint-Remembers :
      (at : ℕ) (panes : List PaneInfo)
      → Triple (Remembers old) (write_checkpoint at panes) (λ _. Remembers panes) (Remembers old)
  unfolding write_checkpoint ◌>>=◌
  write_checkpoint-Remembers at panes =
      Triple-bind (λ _. Remembers old) (λ _. Remembers panes) (Remembers old) _ _ _
        (record_panes-Leaves at panes)
        (λ _.
          Triple-bind (λ _. Remembers old) (λ _. Remembers panes) (Remembers old) _ _ _
            (append_event-Leaves (checkpoint at (pane_ids panes)))
            (λ _.
              Triple-bind (λ _. Remembers old) (λ _. Remembers panes) (Remembers old) _ _ _
                sync_data-Leaves (λ _. record { run = λ j h. refl })))

  pub checkpoint_panes-Remembers :
      (at : ℕ) (panes : List PaneInfo)
      → Triple
          (Remembers old)
          (checkpoint_panes at panes)
          (λ _. Remembers (recoverable panes))
          (Remembers old)
  unfolding checkpoint_panes
  checkpoint_panes-Remembers at panes = record {
    run = λ j h. elim (Bool-cases (same_recovery_checkpoint j.checkpoint (recoverable panes))) [
      | inl e ↦ rw e ((refresh-Remembers (recoverable panes)).run j h)
      | inr e ↦ rw e ((write_checkpoint-Remembers at (recoverable panes)).run j h)
    ];
  }

attempt-dir :
    (faults : List Bool) (j : Journal)
    → (attempt faults
        (λ rest. record j { faults = rest })
        (λ rest. record j { faults = rest })).1.dir
      ≡ j.dir
unfolding attempt
attempt-dir [] j = refl
attempt-dir (true ∷ fs) j = refl
attempt-dir (false ∷ fs) j = refl

sync_data-dir : (j : Journal) → (sync_data j).1.dir ≡ j.dir
unfolding sync_data
sync_data-dir j = attempt-dir j.faults j

refreshed-dir :
    (panes : List PaneInfo) (r : Result JournalError (Unit {0}) × Journal)
    → (continue r (λ _. modify (with_checkpoint panes) >> pure (length panes))).1.dir ≡ r.1.dir
unfolding ◌>>=◌
refreshed-dir panes (ok a, j) = refl
refreshed-dir panes (err e, j) = refl

same_checkpoint-dir :
    (at : ℕ) (panes : List PaneInfo) (j : Journal)
    → same_recovery_checkpoint j.checkpoint (recoverable panes) ≡ true
    → (checkpoint_panes at panes j).1.dir ≡ j.dir
unfolding checkpoint_panes ◌>>=◌
same_checkpoint-dir at panes j h =
    rw h (refreshed-dir (recoverable panes) (sync_data j) ∙ sync_data-dir j)

-- After a backup that succeeded, from any journal and whatever writes fail later, a backup of panes that
-- have the same recovery state adds nothing to any file of the journal.
pub checkpoint_panes-repeated :
    (at later : ℕ) (panes same : List PaneInfo) (n : ℕ) (j k : Journal) (faults : List Bool)
    → checkpoint_panes at panes j ≡ (ok n, k)
    → map recovery (recoverable same) ≡ map recovery (recoverable panes)
    → (checkpoint_panes later same (record k { faults = faults })).1.dir ≡ k.dir
checkpoint_panes-repeated at later panes same n j k faults saved alike =
    let remembered : k.checkpoint ≡ recoverable panes =
      subst (Holds (λ _. Remembers (recoverable panes)) (Remembers j.checkpoint)) saved
        ((checkpoint_panes-Remembers j.checkpoint at panes).run j refl) in
    same_checkpoint-dir later same (record k { faults = faults })
      ((same_recovery_checkpoint_iff k.checkpoint (recoverable same)).1
        (ap (map recovery) remembered ∙ sym alike))
