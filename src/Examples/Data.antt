-- ===== src/Examples/Data.antt =====
-- The panes, keys and graves of the concrete runs.
use slopd.Base.{ℕ, String, none, some, [], ◌∷◌, insert}
use slopd.Pane.State.{PaneState, PaneDetailedState}
use slopd.Pane.Agent.{claude}
use slopd.Pane.Info.{PaneInfo, GraveEntry}
use slopd.Journal.Event.{GenerationKey, generation_key_eq}
use slopd.Journal.Io.{Journal}
use slopd.Journal.Writer.{header}

abbrev pub a_pane : String → String → PaneInfo
a_pane id session = record {
  pane_id = id;
  created_at = 10;
  last_active = 20;
  session_id = some session;
  parent_pane_id = none;
  tags = "work" ∷ [];
  state = PaneState.ready;
  detailed_state = PaneDetailedState.ready;
  working_dir = some "/tmp";
  transcript_path = none;
  account = "default";
  backend = claude;
  pane_title = none;
}

abbrev pub a_grave : String → ℕ → GraveEntry
a_grave id at = record {
  grave_id = id;
  tmux_boot_id = "boot";
  tmux_session_id = "$1";
  destroyed_at = at;
  cause = "self_exit";
  detected_by = "reconcile_dead_pane";
  pane = a_pane "%1" "s1";
  revived_at = none;
  revived_as = none;
}

abbrev pub first_key : GenerationKey
first_key = record { tmux_boot_id = "boot"; tmux_session_id = "$1" }

abbrev pub second_key : GenerationKey
second_key = record { tmux_boot_id = "boot"; tmux_session_id = "$2" }

-- A journal just opened on its first generation.
abbrev pub first_journal : Journal
first_journal = record {
  dir = insert first_key (header first_key 5 ∷ []) [];
  generation = first_key;
  pane_versions = [];
  checkpoint = [];
  faults = [];
}
