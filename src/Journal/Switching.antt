-- ===== src/Journal/Switching.antt =====
-- slopd/src/journal.rs: `switch_generation` when it fails.
use slopd.Base.{
  ℕ, Bool, true, false, Option, none, some, List, [], ◌∷◌, ◌++◌, ◌≡◌, refl, ◌∙◌, get, insert,
  get-insert, arith, if◌then◌else◌, Map,
}
use slopd.Journal.Event.{
  GenerationKey, generation_eq, generation_eq_iff, generation_key_eq, JournalEvent,
}
use slopd.Journal.Io.{
  Journal, Triple, Triple-bind, Holds-attempt, ◌>>=◌, pure, current_file, append_event, sync_data,
}
use slopd.Journal.Writer.{open_generation, open_file, open_at, header, handle}

-- What the old generation `old` has in memory and on disk.
pub record IsKept (old j : Journal) : Type 0 where
  pub versions : j.pane_versions ≡ old.pane_versions
  pub checkpoint : j.checkpoint ≡ old.checkpoint
  pub file : get j.dir old.generation ≡ get old.dir old.generation

module _ (old : Journal) (key : GenerationKey)
    (other : generation_eq old.generation key ≡ false) where
  -- Kept, with the handle on the other generation.
  record Aside (j : Journal) : Type 0 where
    kept : IsKept old j
    on_key : j.generation ≡ key

  get-insert_other :
      (dir : Map GenerationKey (List JournalEvent)) (k : GenerationKey) (es : List JournalEvent)
      → k ≡ key
      → get (insert k es dir) old.generation ≡ get dir old.generation
  get-insert_other dir k es e = ground (
    arith,
    get-insert k old.generation es dir,
    generation_eq_iff k old.generation,
    generation_eq_iff old.generation key,
  )

  handle-file : (j : Journal) → get (handle key j).dir old.generation ≡ get j.dir old.generation
  handle-file j = go (get j.dir key)
    where
      go :
          (o : Option (List JournalEvent))
          → get (elim o [ none ↦ insert key [] j.dir | some _ ↦ j.dir ]) old.generation
            ≡ get j.dir old.generation
      go none = get-insert_other j.dir key [] refl
      go (some es) = refl

  open_file-Aside : Triple (IsKept old) (open_file key) (λ _. Aside) (IsKept old)
  unfolding open_file
  open_file-Aside = record {
    run = λ j h.
        Holds-attempt (λ _. Aside) (IsKept old) j.faults _ _
          (λ rest. record {
            kept = record {
              versions = h.versions;
              checkpoint = h.checkpoint;
              file = handle-file j ∙ h.file;
            };
            on_key = refl;
          })
          (λ rest. record { versions = h.versions; checkpoint = h.checkpoint; file = h.file });
  }

  refault-IsKept :
      (j : Journal) (rest : List Bool) → Aside j → IsKept old (record j { faults = rest })
  refault-IsKept j rest h = record {
    versions = h.kept.versions;
    checkpoint = h.kept.checkpoint;
    file = h.kept.file;
  }

  append_event-Aside : (e : JournalEvent) → Triple Aside (append_event e) (λ _. Aside) (IsKept old)
  unfolding append_event
  append_event-Aside e = record {
    run = λ j h.
        Holds-attempt (λ _. Aside) (IsKept old) j.faults _ _
          (λ rest. record {
            kept = record {
              versions = h.kept.versions;
              checkpoint = h.kept.checkpoint;
              file =
                  get-insert_other j.dir j.generation (current_file j ++ e ∷ []) h.on_key
                  ∙ h.kept.file;
            };
            on_key = h.on_key;
          })
          (λ rest. refault-IsKept j rest h);
  }

  sync_data-Aside : Triple Aside sync_data (λ _. Aside) (IsKept old)
  unfolding sync_data
  sync_data-Aside = record {
    run = λ j h.
        Holds-attempt (λ _. Aside) (IsKept old) j.faults _ _
          (λ rest. record { kept = refault-IsKept j rest h; on_key = h.on_key })
          (λ rest. refault-IsKept j rest h);
  }

  start_file-Aside :
      (t : ℕ) (new : Bool)
      → Triple Aside
          (if new then (append_event (header key t) >>= λ _. sync_data) else pure tt)
          (λ _. Aside)
          (IsKept old)
  start_file-Aside t true =
      Triple-bind (λ _. Aside) (λ _. Aside) (IsKept old) Aside _ _
        (append_event-Aside (header key t)) (λ _. sync_data-Aside)
  start_file-Aside t false = record { run = λ j h. h }

  -- Success says nothing here; an error keeps everything.
  pub open_at-IsKept : (t : ℕ) → Triple (IsKept old) (open_at key t) (λ _ _. Unit {0}) (IsKept old)
  unfolding open_at open_generation
  open_at-IsKept t =
      Triple-bind (λ _. Aside) (λ _ _. Unit {0}) (IsKept old) (IsKept old) _ _
        (Triple-bind (λ _. Aside) (λ _. Aside) (IsKept old) (IsKept old) _ _ open_file-Aside
          (λ _.
            Triple-bind (λ _. Aside) (λ _. Aside) (IsKept old) Aside _ _ (record { run = λ j h. h })
              (λ new.
                Triple-bind (λ _. Aside) (λ _. Aside) (IsKept old) Aside _ _
                  (start_file-Aside t new) (λ _. record { run = λ j h. h }))))
        (λ st. record { run = λ j h. tt })
