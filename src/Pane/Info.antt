-- ===== src/Pane/Info.antt =====
-- libslop/src/lib.rs: the records of a pane, of its death and of the graveyard filter.
use slopd.Base.{ℕ, String, Bool, false, Option, none, List, []}
use slopd.Pane.State.{PaneState, PaneDetailedState}
use slopd.Pane.Agent.{Backend}

pub record PaneInfo : Type 0 where
  pub pane_id : String
  pub created_at : ℕ
  pub last_active : ℕ
  pub session_id : Option String
  pub parent_pane_id : Option String
  pub tags : List String
  pub state : PaneState
  pub detailed_state : PaneDetailedState
  pub working_dir : Option String
  pub transcript_path : Option String
  pub account : String
  pub backend : Backend
  pub pane_title : Option String

-- A pane's death. `revived_at` and `revived_as` are filled in when the graveyard is read.
pub record GraveEntry : Type 0 where
  pub grave_id : String
  pub tmux_boot_id : String
  pub tmux_session_id : String
  pub destroyed_at : ℕ
  pub cause : String
  pub detected_by : String
  pub pane : PaneInfo
  pub revived_at : Option ℕ
  pub revived_as : Option String

pub record GraveyardFilter : Type 0 where
  pub account : Option String
  pub backend : Option Backend
  pub tags_all : List String
  pub unrevived_only : Bool
  pub destroyed_after : Option ℕ

-- `GraveyardFilter::default()`.
abbrev pub no_filter : GraveyardFilter
no_filter = record {
  account = none;
  backend = none;
  tags_all = [];
  unrevived_only = false;
  destroyed_after = none;
}
