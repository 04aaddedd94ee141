-- ===== src/Journal/Writer.antt =====
-- slopd/src/journal.rs: opening a generation, and the operations that append to its file. `now()` is
-- the argument `at`.
use slopd.Base.{
  ℕ, String, Bool, true, false, Option, none, some, List, [], ◌∷◌, map, get, insert, retain_keys,
  contains, filter, find, length, Result, ok, err, string_eq, is_some, str_lt, sort_by, ◌==◌,
  if◌then◌else◌,
}
use slopd.Pane.Info.{PaneInfo, GraveEntry}
use slopd.Pane.Recovery.{same_recovery_metadata, same_recovery_checkpoint}
use slopd.Journal.Event.{
  GenerationKey, generation_eq, generation_key_eq, JournalEvent, generation, pane, checkpoint,
  destroyed, revived, restore_resolved,
}
use slopd.Journal.Replay.{GenerationState, read_generation}
use slopd.Journal.Io.{
  Journal, JournalError, Io, ◌>>=◌, ◌>>◌, pure, modify, attempt, current_file, append_event,
  sync_data,
}

abbrev pub with_checkpoint : List PaneInfo → Journal → Journal
with_checkpoint panes j = record j { checkpoint = panes }

-- `*current = CurrentState { generation, file, pane_versions, checkpoint }`
abbrev pub adopt : GenerationKey → GenerationState → Journal → Journal
adopt key st j = record j {
  generation = key;
  pane_versions = st.pane_versions;
  checkpoint = st.checkpoint;
}

-- The journal's handle on `key`'s file, before its state is read.
abbrev pub handle : GenerationKey → Journal → Journal
handle key j = record j {
  generation = key;
  dir = elim (get j.dir key) [ none ↦ insert key [] j.dir | some _ ↦ j.dir ];
}

-- `libslop::jsonl::open` creates the file; it may fail as a write does.
unfoldable pub open_file : GenerationKey → Io (Unit {0})
open_file key j =
    attempt j.faults (λ rest. handle key (record j { faults = rest }))
      (λ rest. record j { faults = rest })

abbrev pub header : GenerationKey → ℕ → JournalEvent
header key started_at = generation 1 started_at key.tmux_boot_id key.tmux_session_id

abbrev pub is_empty {ℓ} : {A : Type ℓ} → List A → Bool
is_empty [] = true
is_empty (x ∷ xs) = false

-- A file that is new or empty gets its header; then its state is read.
unfoldable pub open_generation : GenerationKey → ℕ → Io GenerationState
open_generation key started_at = do
  open_file key
  new ← (λ j. (ok (is_empty (current_file j)), j))
  if new then (do append_event (header key started_at); sync_data) else pure tt
  (λ j. (ok (read_generation (current_file j)), j))

-- A journal over a directory, its current state that of the generation's file.
unfoldable pub open_at : GenerationKey → ℕ → Io (Unit {0})
unfolding open_generation
open_at key started_at = do st ← open_generation key started_at; modify (adopt key st)

abbrev pub back_on_error :
    GenerationKey
    → Result JournalError (Unit {0}) × Journal
    → Result JournalError (Unit {0}) × Journal
back_on_error old (ok _, j) = (ok tt, j)
back_on_error old (err e, j) = (err e, record j { generation = old })

-- On an error the old generation stays current.
unfoldable pub switch_generation : GenerationKey → ℕ → Io (Unit {0})
switch_generation key started_at j =
    if generation_eq j.generation key
    then (ok tt, j)
    else back_on_error j.generation (open_at key started_at j)

abbrev pub put_version : PaneInfo → Journal → Journal
put_version p j = record j { pane_versions = insert p.pane_id p j.pane_versions }

abbrev pub unchanged : PaneInfo → Option PaneInfo → Bool
unchanged p none = false
unchanged p (some previous) = same_recovery_metadata previous p

unfoldable pub record_pane : ℕ → PaneInfo → Io (Unit {0})
record_pane at p j =
    if unchanged p (get j.pane_versions p.pane_id)
    then (ok tt, j)
    else (do append_event (pane at p); modify (put_version p)) j

unfoldable pub record_panes : ℕ → List PaneInfo → Io (Unit {0})
record_panes at [] = pure tt
record_panes at (p ∷ ps) = do record_pane at p; record_panes at ps

abbrev pub pane_ids : List PaneInfo → List String
pane_ids = map (λ p. p.pane_id)

abbrev pub keep_live : List PaneInfo → Journal → Journal
keep_live panes j = record j {
  pane_versions = retain_keys (contains (pane_ids panes)) j.pane_versions;
  checkpoint = panes;
}

-- `panes.retain(|pane| pane.session_id.is_some()); panes.sort_by(…)`
unfoldable pub recoverable : List PaneInfo → List PaneInfo
recoverable panes =
    sort_by (λ a b. str_lt a.pane_id b.pane_id) (filter (λ p. is_some p.session_id) panes)

unfoldable pub write_checkpoint : ℕ → List PaneInfo → Io ℕ
write_checkpoint at panes = do
  record_panes at panes
  append_event (checkpoint at (pane_ids panes))
  sync_data
  modify (keep_live panes)
  pure (length panes)

unfoldable pub checkpoint_panes : ℕ → List PaneInfo → Io ℕ
checkpoint_panes at all_panes j =
    let panes = recoverable all_panes in
    if same_recovery_checkpoint j.checkpoint panes
    then (do sync_data; modify (with_checkpoint panes); pure (length panes)) j
    else write_checkpoint at panes j

unfoldable pub checkpoint_pane : String → Journal → Option PaneInfo
checkpoint_pane pane_id j = find (λ p. p.pane_id == pane_id) j.checkpoint

unfoldable pub record_destroyed : GraveEntry → Io (Unit {0})
record_destroyed entry = do append_event (destroyed entry); sync_data

unfoldable pub record_revived : ℕ → String → String → Io (Unit {0})
record_revived at grave_id pane_id j =
    (do
      append_event
          (revived at grave_id pane_id j.generation.tmux_boot_id j.generation.tmux_session_id)
      sync_data)
      j

unfoldable pub resolve_restore : ℕ → GenerationKey → String → Io (Unit {0})
resolve_restore at source action j =
    if generation_eq source j.generation
    then (ok tt, j)
    else (do append_event (restore_resolved at source action); sync_data) j
