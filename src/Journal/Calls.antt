-- ===== src/Journal/Calls.antt =====
-- slopd/src/journal.rs: sequences of the calls that write a journal, and the journal of a daemon
-- that reopens it.
use slopd.Base.{
  ℕ, String, Option, none, some, List, [], ◌∷◌, ◌≡◌, refl, ap, ◌∙◌, get, map, string_eq, arith,
  unwrap_or, ◌⊎◌,
}
use slopd.Pane.Info.{PaneInfo, GraveEntry}
use slopd.Pane.Recovery.{recovery}
use slopd.Journal.Event.{GenerationKey, generation_key_eq, JournalEvent}
use slopd.Journal.Replay.{read_generation, replay_from}
use slopd.Journal.Io.{Journal, Io, Holds, ◌>>=◌, pure, attempt, current_file}
use slopd.Journal.Writer.{
  recoverable, checkpoint_panes, record_destroyed, record_revived, resolve_restore, keep_live,
  open_at, open_generation, open_file, switch_generation,
}
use slopd.Journal.Synced.{Synced}
use slopd.Journal.Distinct.{IsDistinct}
use slopd.Journal.Directory.{IsKeyed}
use slopd.Journal.Keyed.{KeyedAt}

-- The calls by which the daemon writes its journal between two compactions; `compact` and
-- `import_legacy`, which rewrite files, are not among them.
pub data Call : Type 0 where
  saves : (at : ℕ) → List PaneInfo → Call
  buries : GraveEntry → Call
  revives : (at : ℕ) (grave_id pane_id : String) → Call
  resolves : (at : ℕ) → GenerationKey → String → Call
  switches : GenerationKey → (started_at : ℕ) → Call

abbrev pub discard : {A : Type 0} → Io A → Io (Unit {0})
discard m = m >>= λ _. pure tt

unfoldable pub exec : Call → Io (Unit {0})
exec (saves at panes) = discard (checkpoint_panes at panes)
exec (buries entry) = record_destroyed entry
exec (revives at grave_id pane_id) = record_revived at grave_id pane_id
exec (resolves at source action) = resolve_restore at source action
exec (switches key started_at) = switch_generation key started_at

abbrev pub IsDistinctCall : Call → Type 0
IsDistinctCall (saves at panes) = IsDistinct panes
IsDistinctCall _ = Unit

abbrev pub AreDistinct : List Call → Type 0
AreDistinct [] = Unit
AreDistinct (c ∷ cs) = IsDistinctCall c × AreDistinct cs

-- A new daemon on the same directory, before it opens anything.
abbrev pub restarted : Journal → Journal
restarted j = record {
  dir = j.dir;
  generation = j.generation;
  pane_versions = [];
  checkpoint = [];
  faults = [];
}

-- The journal that it opens on the generation that was current.
pub reopened : ℕ → Journal → Journal
reopened t j = (open_at j.generation t (restarted j)).1

-- Reopening gives a checkpoint with the recovery state of `panes`.
pub record Recovers (panes : List PaneInfo) (j : Journal) : Type 0 where
  pub reads_back : (t : ℕ) → map recovery (reopened t j).checkpoint ≡ map recovery panes

-- The invariant of a journal in use.
pub record IsSound (j : Journal) : Type 0 where
  pub synced : Synced j
  pub keyed : IsKeyed j.dir

abbrev pub headed : (j : Journal) → IsSound j → KeyedAt j
headed j h = record { keyed = h.keyed; headed = h.synced.same_key }

stored :
    (o : Option (List JournalEvent)) (key : GenerationKey)
    → (read_generation (unwrap_or o [])).key ≡ some key
    → (e : JournalEvent) × (es : List JournalEvent) × (o ≡ some (e ∷ es))
unfolding read_generation replay_from
stored none key h = cc
stored (some []) key h = cc
stored (some (e ∷ es)) key h = (e, es, refl)

reopened_stored :
    (t : ℕ) (j : Journal) (e : JournalEvent) (es : List JournalEvent)
    → get j.dir j.generation ≡ some (e ∷ es)
    → (reopened t j).checkpoint ≡ (read_generation (current_file j)).checkpoint
unfolding reopened open_at open_generation open_file attempt ◌>>=◌
reopened_stored t j e es found = ground arith

-- Reopening reads the current file, and writes nothing.
reopened_lem :
    (t : ℕ) (j : Journal)
    → KeyedAt j
    → (reopened t j).checkpoint ≡ (read_generation (current_file j)).checkpoint
reopened_lem t j h =
    let (e, es, found) = stored (get j.dir j.generation) j.generation h.headed in
    reopened_stored t j e es found

pub Synced-Recovers : (j : Journal) → KeyedAt j → Synced j → Recovers j.checkpoint j
Synced-Recovers j k h = record {
  reads_back = λ t. ap (map recovery) (reopened_lem t j k) ∙ h.same_checkpoint;
}

-- The file of a journal whose last checkpoint stopped at its sync.
pub keep_live-Recovers :
    (j : Journal) (panes : List PaneInfo)
    → KeyedAt j
    → Synced (keep_live panes j)
    → Recovers panes j
keep_live-Recovers j panes k h = record {
  reads_back = λ t. ap (map recovery) (reopened_lem t j k) ∙ h.same_checkpoint;
}

-- The checkpoint in memory after a call that succeeds: the panes that it saved, those before it, or
-- those of the file that it switches to.
abbrev pub HasLeft : Call → (old : List PaneInfo) → Journal → Type 0
HasLeft (saves at panes) old j = j.checkpoint ≡ recoverable panes
HasLeft (switches key started_at) old j = Unit
HasLeft _ old j = j.checkpoint ≡ old

-- What reopening gives after a call that fails: the checkpoint before the call, or the one that the
-- call was writing.
abbrev pub Interrupted : Call → (old : List PaneInfo) → Journal → Type 0
Interrupted (saves at panes) old j = Recovers old j ⊎ Recovers (recoverable panes) j
Interrupted _ old j = Recovers old j

-- Reopening gives the checkpoint in memory before, between and after the calls, up to the first that
-- fails: there the daemon may as well have crashed.
abbrev pub RecoversThrough : List Call → Journal → Type 0
RecoversThrough [] j = Recovers j.checkpoint j
RecoversThrough (c ∷ cs) j =
    Recovers j.checkpoint j
    × Holds (λ _ s. HasLeft c j.checkpoint s × RecoversThrough cs s) (Interrupted c j.checkpoint)
        (exec c j)
