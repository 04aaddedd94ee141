-- ===== src/Journal/Replay.antt =====
-- slopd/src/journal.rs: `read_generation`, the state that a generation's file stands for.
use slopd.Base.{
  ℕ, String, Bool, true, false, Option, none, some, List, [], ◌∷◌, ◌++◌, ◌≡◌, refl, Map, get,
  insert, retain_keys, contains, string_eq, option_beq, if◌then◌else◌,
}
use slopd.Pane.Info.{PaneInfo, GraveEntry}
use slopd.Journal.Event.{
  GenerationKey, generation_key_eq, JournalEvent, generation, pane, checkpoint, destroyed, revived,
  restore_resolved,
}

pub record GenerationState : Type 0 where
  pub key : Option GenerationKey
  pub started_at : ℕ
  pub pane_versions : Map String PaneInfo
  pub checkpoint : List PaneInfo
  pub has_checkpoint : Bool
  pub graves : List GraveEntry
  pub revivals : List (String × ℕ × String)
  pub resolved_sources : List GenerationKey

-- `GenerationState::default()`.
abbrev pub empty_state : GenerationState
empty_state = record {
  key = none;
  started_at = 0;
  pane_versions = [];
  checkpoint = [];
  has_checkpoint = false;
  graves = [];
  revivals = [];
  resolved_sources = [];
}

-- `pane_ids.iter().filter_map(|id| pane_versions.get(id).cloned())`
unfoldable pub named_panes : Map String PaneInfo → List String → List PaneInfo
named_panes versions [] = []
named_panes versions (id ∷ ids) =
    let rest = named_panes versions ids in
    elim (get versions id) [ none ↦ rest | some p ↦ p ∷ rest ]

-- `HashSet::insert`
unfoldable pub insert_source : GenerationKey → List GenerationKey → List GenerationKey
insert_source k ks = if contains ks k then ks else k ∷ ks

-- One arm of the closure for each event.
unfoldable pub apply_event : GenerationState → JournalEvent → GenerationState
unfolding named_panes insert_source
apply_event s (generation version started_at boot session) = record s {
  started_at = started_at;
  key = some (record { tmux_boot_id = boot; tmux_session_id = session });
}
apply_event s (pane at p) = record s { pane_versions = insert p.pane_id p s.pane_versions }
apply_event s (checkpoint at ids) = record s {
  checkpoint = named_panes s.pane_versions ids;
  pane_versions = retain_keys (contains ids) s.pane_versions;
  has_checkpoint = true;
}
apply_event s (destroyed entry) = record s { graves = s.graves ++ entry ∷ [] }
apply_event s (revived at grave_id pane_id boot session) = record s {
  revivals = s.revivals ++ (grave_id, at, pane_id) ∷ [];
}
apply_event s (restore_resolved at source action) =
    if option_beq s.key (some source)
    then s
    else record s { resolved_sources = insert_source source s.resolved_sources }

unfoldable pub replay_from : GenerationState → List JournalEvent → GenerationState
unfolding apply_event
replay_from s [] = s
replay_from s (e ∷ es) = replay_from (apply_event s e) es

unfoldable pub read_generation : List JournalEvent → GenerationState
unfolding replay_from
read_generation = replay_from empty_state

pub replay_from-append :
    (s : GenerationState) (xs ys : List JournalEvent)
    → replay_from s (xs ++ ys) ≡ replay_from (replay_from s xs) ys
unfolding replay_from
replay_from-append s [] ys = refl
replay_from-append s (x ∷ xs) ys = replay_from-append (apply_event s x) xs ys

pub read_generation-append :
    (xs : List JournalEvent) (e : JournalEvent)
    → read_generation (xs ++ e ∷ []) ≡ apply_event (read_generation xs) e
unfolding read_generation replay_from
read_generation-append xs e = replay_from-append empty_state xs (e ∷ [])
