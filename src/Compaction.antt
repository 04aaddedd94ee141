-- ===== src/Compaction.antt =====
-- slopd/src/journal.rs: `compact`, which rewrites the generation files with bounded grave history,
-- and `import_legacy`. A file is replaced atomically: opening, writing and committing it is one step
-- that happens or fails as a whole.
pub mod Reading
use slopd.Base.{
  ℕ, ◌+◌, ◌-◌, String, Bool, true, false, ◌&&◌, Option, none, some, List, [], ◌∷◌, ◌++◌, map, Map,
  insert, get, Result, ok, err, string_eq, contains, filter, take, length, unwrap_or, is_none,
  is_none_or, map_option, leb, nat_eq, sort_by, if◌then◌else◌,
}
use slopd.Pane.Info.{PaneInfo, GraveEntry}
use slopd.Journal.Event.{
  GenerationKey, generation_key_eq, JournalEvent, generation, pane, checkpoint, destroyed, revived,
  restore_resolved,
}
use slopd.Journal.Replay.{GenerationState}
use slopd.Journal.Io.{Journal, JournalError, Io, ◌>>=◌, ◌>>◌, pure, attempt, sync_data}
use slopd.Journal.Writer.{header, pane_ids}
use slopd.Graveyard.Generations.{read_generations}
use slopd.Graveyard.Page.{grave_before, all_graves}

abbrev pub revival_event : GenerationKey → String × ℕ × String → JournalEvent
revival_event key (grave_id, at, pane_id) =
    revived at grave_id pane_id key.tmux_boot_id key.tmux_session_id

abbrev pub kept_revival : List String → String × ℕ × String → Bool
kept_revival ids (grave_id, at, pane_id) = contains ids grave_id

abbrev pub kept_grave : List String → GraveEntry → Bool
kept_grave ids e = contains ids e.grave_id

abbrev pub source_event : ℕ → GenerationKey → JournalEvent
source_event at source = restore_resolved at source "journal_compaction"

unfoldable pub checkpoint_events : ℕ → Bool → List PaneInfo → List JournalEvent
checkpoint_events at false panes = []
checkpoint_events at true panes = map (pane at) panes ++ checkpoint at (pane_ids panes) ∷ []

-- The events of a rewritten file.
unfoldable pub compacted_events :
    ℕ → List String → GenerationKey → GenerationState → List JournalEvent
unfolding checkpoint_events
compacted_events at ids key g =
    header key g.started_at
    ∷ (checkpoint_events at g.has_checkpoint g.checkpoint
        ++ (map destroyed (filter (kept_grave ids) g.graves)
            ++ (map (revival_event key) (filter (kept_revival ids) g.revivals)
                ++ map (source_event at) g.resolved_sources)))

-- `HashSet` of the ids.
unfoldable pub id_set : List String → List String
id_set [] = []
id_set (id ∷ ids) = let rest = id_set ids in if contains rest id then rest else id ∷ rest

abbrev truncated : Option ℕ → List GraveEntry → List GraveEntry
truncated none graves = graves
truncated (some limit) graves = take limit graves

unfoldable pub retained_ids : ℕ → Option ℕ → Option ℕ → List GenerationState → List String
unfolding id_set
retained_ids now max_age max_entries generations =
    let cutoff = map_option (λ age. now - age) max_age in
    let recent =
      filter (λ (e : GraveEntry). is_none_or cutoff (λ c. leb c e.destroyed_at))
        (all_graves generations) in
    id_set (map (λ e. e.grave_id) (truncated max_entries (sort_by grave_before recent)))

abbrev replace_file : GenerationKey → List JournalEvent → Journal → Journal
replace_file key es j = record j { dir = insert key es j.dir }

unfoldable pub rewrite_file : ℕ → List String → GenerationKey → GenerationState → Io (Unit {0})
unfolding compacted_events
rewrite_file at ids key g j =
    attempt j.faults
      (λ rest. record (replace_file key (compacted_events at ids key g) j) { faults = rest })
      (λ rest. record j { faults = rest })

abbrev rewrite_keyed : ℕ → List String → Option GenerationKey → GenerationState → Io (Unit {0})
rewrite_keyed at ids none g = pure tt
rewrite_keyed at ids (some key) g = rewrite_file at ids key g

unfoldable pub rewrite_files : ℕ → List String → List GenerationState → Io (Unit {0})
unfolding rewrite_file
rewrite_files at ids [] = pure tt
rewrite_files at ids (g ∷ gs) = do rewrite_keyed at ids g.key g; rewrite_files at ids gs

-- The rewriting, and the reopening of the current file.
unfoldable pub rewrite_all : ℕ → List String → List GenerationState → ℕ → Io ℕ
unfolding rewrite_files
rewrite_all at ids generations before = do
  rewrite_files at ids generations
  sync_data
  pure (before - length ids)

unfoldable pub compact_with : ℕ → Option ℕ → Option ℕ → Io ℕ
unfolding retained_ids rewrite_all
compact_with now max_age max_entries j =
    let generations = read_generations j.dir in
    let ids = retained_ids now max_age max_entries generations in
    let before = length (all_graves generations) in
    if nat_eq (length ids) before then (ok 0, j) else rewrite_all now ids generations before j

unfoldable pub compact : ℕ → Option ℕ → Option ℕ → Io ℕ
unfolding compact_with
compact now max_age max_entries =
    if is_none max_age && is_none max_entries
    then pure 0
    else (do sync_data; compact_with now max_age max_entries)

abbrev pub legacy_key : GenerationKey
legacy_key = record { tmux_boot_id = "legacy-manifest"; tmux_session_id = "$legacy" }

abbrev is_stored : Option (List JournalEvent) → Bool
is_stored none = false
is_stored (some es) = true

abbrev append_to : GenerationKey → JournalEvent → Io (Unit {0})
append_to key e j =
    attempt j.faults
      (λ rest. record j {
        dir = insert key (unwrap_or (get j.dir key) [] ++ e ∷ []) j.dir;
        faults = rest;
      })
      (λ rest. record j { faults = rest })

abbrev append_all : GenerationKey → List JournalEvent → Io (Unit {0})
append_all key [] = pure tt
append_all key (e ∷ es) = do append_to key e; append_all key es

-- `create_new` on a path that was checked: it fails only as a write does.
abbrev create_file : GenerationKey → Io (Unit {0})
create_file key j =
    attempt j.faults (λ rest. record j { dir = insert key [] j.dir; faults = rest })
      (λ rest. record j { faults = rest })

unfoldable pub import_legacy : ℕ → List PaneInfo → ℕ → Io Bool
import_legacy now [] started_at j = (ok false, j)
import_legacy now (p ∷ panes) started_at j =
    if leb 2 (length j.dir)
    then (ok false, j)
    else if is_stored (get j.dir legacy_key)
    then (ok false, j)
    else (do
      create_file legacy_key
      append_to legacy_key (header legacy_key started_at)
      append_all legacy_key (map (pane now) (p ∷ panes))
      append_to legacy_key (checkpoint now (pane_ids (p ∷ panes)))
      sync_data
      pure true)
        j
