-- ===== src/Examples/AccountRuns.antt =====
-- Accounts at concrete configurations.
use slopd.Base.{
  String, true, none, some, [], ◌∷◌, ◌≡◌, ◌≢◌, refl, Result, ok, err, get, string_eq, inr,
}
use slopd.Pane.Agent.{claude, opencode}
use slopd.Accounts.Config.{
  executable_of, backend_of, string, settings, SlopdConfig, ResolvedAccount, program,
}
use slopd.Accounts.Resolve.{
  ResolveError, panicked, infer_from_program, base_name, trim_exe, resolve, resolve_default,
  resolve_named, resolve_account,
}
use slopd.Accounts.Restore.{resolve_restore_account}
use slopd.Accounts.Fits.{is_compatible, is_ok, is_ok-resolve, IsFitting, resolve-IsFitting}
use slopd.Accounts.Restored.{
  IsContradicting, IsRestored, resolve_restore_account-IsRestored, resolve_restore_account-panics,
}

abbrev same_path : String → String
same_path p = p

-- A Claude default account, and one of OpenCode.
abbrev two_accounts : SlopdConfig
two_accounts = record {
  run_executable = none;
  config_dir = none;
  backend = some claude;
  accounts =
      ("other", settings (record { config_dir = none; backend = some opencode; executable = none }))
      ∷ [];
  default_account = none;
}

-- The default backend contradicts the executable.
abbrev contradicting : SlopdConfig
contradicting = record two_accounts { run_executable = some (string "opencode") }

default_resolves : is_ok (resolve_account same_path two_accounts (some "default")) ≡ true
unfolding resolve_account resolve_default resolve get
default_resolves = refl

not_panicked : (r : Result ResolveError ResolvedAccount) → is_ok r ≡ true → r ≢ err panicked
not_panicked (ok a) h e = cc
not_panicked (err x) h e = cc

other_is_ok : is_ok (resolve_account same_path two_accounts (some "other")) ≡ true
unfolding resolve_account resolve_named resolve get executable_of backend_of
other_is_ok = refl

other_resolves : resolve_account same_path two_accounts (some "other") ≢ err panicked
other_resolves = not_panicked (resolve_account same_path two_accounts (some "other")) other_is_ok

resolve_restore_account-IsRestored_example :
    IsRestored claude (resolve_restore_account same_path two_accounts "other" claude)
resolve_restore_account-IsRestored_example =
    resolve_restore_account-IsRestored same_path two_accounts "other" claude other_resolves
      default_resolves

contradicting-IsContradicting : IsContradicting contradicting
unfolding get infer_from_program base_name trim_exe program backend_of executable_of
contradicting-IsContradicting = record {
  asked = claude;
  inferred = opencode;
  executable = string "opencode";
  text = "opencode";
  has_backend = refl;
  has_executable = refl;
  has_program = refl;
  stands_for = refl;
  differ = λ e. cc;
}

unlisted : get contradicting.accounts "gone" ≡ none
unfolding get
unlisted = refl

resolve_restore_account-panics_example :
    resolve_restore_account same_path contradicting "gone" claude ≡ err panicked
resolve_restore_account-panics_example =
    resolve_restore_account-panics same_path contradicting "gone" claude
      contradicting-IsContradicting (inr unlisted)

is_ok-resolve_example :
    is_ok (resolve (some claude) (some (string "opencode")))
    ≡ is_compatible (some claude) (some (string "opencode"))
is_ok-resolve_example = is_ok-resolve (some claude) (some (string "opencode"))

resolve-IsFitting_example :
    IsFitting none (some (string "/usr/bin/codex")) (resolve none (some (string "/usr/bin/codex")))
resolve-IsFitting_example = resolve-IsFitting none (some (string "/usr/bin/codex"))
