-- ===== src/Journal/Durable.antt =====
-- slopd/src/journal.rs: what `checkpoint` leaves in the file, by whether its writes and its sync fail.
use slopd.Base.{ℕ, List, [], ◌≡◌, refl, ◌∙◌, map, string_eq, length, Bool-cases, All, ◌⊎◌, inl, inr}
use slopd.Pane.Info.{PaneInfo}
use slopd.Pane.Recovery.{recovery, same_recovery_checkpoint, same_recovery_checkpoint_iff}
use slopd.Journal.Event.{generation_key_eq, checkpoint}
use slopd.Journal.Io.{
  Journal, Triple, Triple-bind, Triple-weaken, Triple-both, Holds, Holds-weaken, ◌>>=◌, pure,
  modify, append_event, sync_data,
}
use slopd.Journal.Writer.{
  pane_ids, with_checkpoint, keep_live, recoverable, write_checkpoint, checkpoint_panes,
}
use slopd.Journal.Synced.{Synced, VersionOf, read-write_event, Agrees-checkpoint}
use slopd.Journal.Unchanged.{Remembers, checkpoint_panes-Remembers}
use slopd.Journal.Distinct.{IsDistinct, recoverable-IsDistinct}
use slopd.Journal.Recording.{append_event-Triple, sync_data-Triple, Recorded, record_panes-Recorded}

-- The file holds the checkpoint in memory or the new one, and no mixture.
abbrev pub HoldsEither : List PaneInfo → Journal → Type 0
HoldsEither panes j = Synced j ⊎ Synced (keep_live panes j)

-- After a failed checkpoint the memory is still the old one, which the file holds too unless it
-- already holds the new one.
abbrev pub OldOrNew : (old new : List PaneInfo) → Journal → Type 0
OldOrNew old new j = (j.checkpoint ≡ old) × HoldsEither new j

-- What a checkpoint that succeeded leaves.
abbrev pub Saved : List PaneInfo → ℕ → Journal → Type 0
Saved panes n j = Synced j × (j.checkpoint ≡ panes) × (n ≡ length panes)

finish_checkpoint :
    (at : ℕ) (panes : List PaneInfo)
    → Triple
        (Recorded panes)
        (append_event (checkpoint at (pane_ids panes)) >>= λ _.
          (sync_data >>= λ _. (modify (keep_live panes) >>= λ _. pure (length panes))))
        (Saved panes)
        (HoldsEither panes)
unfolding ◌>>=◌
finish_checkpoint at panes =
    Triple-bind (λ _ j. Synced (keep_live panes j)) (Saved panes) (HoldsEither panes)
      (Recorded panes) _ _
      (append_event-Triple (Recorded panes) (λ j. Synced (keep_live panes j)) (HoldsEither panes) _
        (λ j rest h.
          rw (read-write_event (checkpoint at (pane_ids panes)) j)
            (Agrees-checkpoint _ j.generation j.pane_versions j.checkpoint panes at h.1 h.0))
        (λ j rest h. inl h.0))
      (λ _.
        Triple-bind (λ _ j. Synced (keep_live panes j)) (Saved panes) (HoldsEither panes) _ _ _
          (sync_data-Triple (λ j. Synced (keep_live panes j)) (HoldsEither panes) (λ j rest h. h)
            (λ j rest h. inr h))
          (λ _. record { run = λ j h. (h, refl, refl) }))

write_checkpoint-Saved :
    (at : ℕ) (panes : List PaneInfo)
    → IsDistinct panes
    → Triple Synced (write_checkpoint at panes) (Saved panes) (HoldsEither panes)
unfolding write_checkpoint
write_checkpoint-Saved at panes d =
    Triple-bind (λ _. Recorded panes) (Saved panes) (HoldsEither panes) Synced _ _
      (Triple-weaken (λ _ j. Recorded [] j × All (VersionOf j.pane_versions) panes)
        (λ _. Recorded panes) Synced (HoldsEither panes) (Recorded []) Synced _ (λ j h. (h, tt))
        (λ _ j h. (h.0.0, h.1)) (λ j h. inl h) (record_panes-Recorded at panes [] d tt))
      (λ _. finish_checkpoint at panes)

-- An unchanged checkpoint only refreshes the memory.
refresh_checkpoint :
    (panes : List PaneInfo)
    → Triple
        (λ j. Synced j × (map recovery j.checkpoint ≡ map recovery panes))
        (sync_data >>= λ _. (modify (with_checkpoint panes) >>= λ _. pure (length panes)))
        (Saved panes)
        (HoldsEither panes)
unfolding ◌>>=◌
refresh_checkpoint panes =
    Triple-bind (λ _ j. Synced j × (map recovery j.checkpoint ≡ map recovery panes)) (Saved panes)
      (HoldsEither panes) _ _ _
      (sync_data-Triple (λ j. Synced j × (map recovery j.checkpoint ≡ map recovery panes))
        (HoldsEither panes) (λ j rest h. h) (λ j rest h. inl h.0))
      (λ _. record {
        run = λ j h. (
          record {
            same_key = h.0.same_key;
            same_checkpoint = h.0.same_checkpoint ∙ h.1;
            same_versions = h.0.same_versions;
          },
          refl,
          refl,
        );
      })

checkpoint_panes-HoldsEither :
    (at : ℕ) (panes : List PaneInfo)
    → IsDistinct panes
    → Triple Synced
        (checkpoint_panes at panes)
        (Saved (recoverable panes))
        (HoldsEither (recoverable panes))
unfolding checkpoint_panes
checkpoint_panes-HoldsEither at panes d = record {
  run = λ j h. elim (Bool-cases (same_recovery_checkpoint j.checkpoint (recoverable panes))) [
    | inl e ↦ rw e (
        (refresh_checkpoint (recoverable panes)).run j
          (h, (same_recovery_checkpoint_iff j.checkpoint (recoverable panes)).0 e))
    | inr e ↦
        rw e
          ((write_checkpoint-Saved at (recoverable panes) (recoverable-IsDistinct panes d)).run j h)
  ];
}

pub checkpoint_panes-Triple :
    (old : List PaneInfo) (at : ℕ) (panes : List PaneInfo)
    → IsDistinct panes
    → Triple
        (λ j. (j.checkpoint ≡ old) × Synced j)
        (checkpoint_panes at panes)
        (λ n j. (j.checkpoint ≡ recoverable panes) × Saved (recoverable panes) n j)
        (OldOrNew old (recoverable panes))
checkpoint_panes-Triple old at panes d =
    Triple-both (λ _. Remembers (recoverable panes)) (Saved (recoverable panes)) (Remembers old)
      (HoldsEither (recoverable panes)) (Remembers old) Synced _
      (checkpoint_panes-Remembers old at panes) (checkpoint_panes-HoldsEither at panes d)

-- A checkpoint of panes with distinct ids, from a journal that agrees with its file: if it succeeds,
-- the journal agrees with its file again and holds exactly the recoverable panes, whose number is the
-- result; if a write or a sync fails, the memory still holds the old checkpoint, and the file holds
-- the recovery state of the old checkpoint or of the new one. A write that fails is taken to leave
-- nothing in the file.
pub checkpoint_panes-Saved :
    (at : ℕ) (panes : List PaneInfo) (j : Journal)
    → IsDistinct panes
    → Synced j
    → Holds
        (Saved (recoverable panes))
        (OldOrNew j.checkpoint (recoverable panes))
        (checkpoint_panes at panes j)
checkpoint_panes-Saved at panes j d h =
    let new = recoverable panes in
    Holds-weaken (λ n s. (s.checkpoint ≡ new) × Saved new n s) (Saved new)
      (OldOrNew j.checkpoint new) (OldOrNew j.checkpoint new) (checkpoint_panes at panes j)
      (λ n s g. g.1) (λ s g. g) ((checkpoint_panes-Triple j.checkpoint at panes d).run j (refl, h))
