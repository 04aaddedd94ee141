-- ===== src/Accounts/Config.antt =====
-- libslop/src/lib.rs: `Executable`, `AccountConfig` and the parts of `SlopdConfig` that resolve an
-- account. The accounts are a `BTreeMap`: each name once, in order.
use slopd.Base.{String, Option, none, some, List, [], ◌∷◌, Map}
use slopd.Pane.Agent.{Backend}

pub data Executable : Type 0 where
  string : String → Executable
  array : List String → Executable

-- `Executable::program`: `none` is the panic of `v[0]` on an empty array.
unfoldable pub program : Executable → Option String
program (string s) = some s
program (array []) = none
program (array (p ∷ args)) = some p

pub record AccountSettings : Type 0 where
  pub config_dir : Option String
  pub backend : Option Backend
  pub executable : Option Executable

pub data AccountConfig : Type 0 where
  dir : String → AccountConfig
  settings : AccountSettings → AccountConfig

unfoldable pub config_dir_of : AccountConfig → Option String
config_dir_of (dir p) = some p
config_dir_of (settings s) = s.config_dir

unfoldable pub backend_of : AccountConfig → Option Backend
backend_of (dir p) = none
backend_of (settings s) = s.backend

unfoldable pub executable_of : AccountConfig → Option Executable
executable_of (dir p) = none
executable_of (settings s) = s.executable

pub record SlopdConfig : Type 0 where
  pub run_executable : Option Executable
  pub config_dir : Option String
  pub backend : Option Backend
  pub accounts : Map String AccountConfig
  pub default_account : Option String

pub record ResolvedAccount : Type 0 where
  pub name : String
  pub config_dir : Option String
  pub backend : Backend
  pub executable : Executable

abbrev pub default_account_name : String
default_account_name = "default"
