-- ===== src/Accounts/Restore.antt =====
-- slopd/src/main.rs: `resolve_restore_account`.
use slopd.Base.{String, Option, none, some, Result, ok, err, if◌then◌else◌}
use slopd.Pane.Agent.{Backend, backend_eq, canonical_executable}
use slopd.Accounts.Config.{
  Executable, string, program, SlopdConfig, ResolvedAccount, default_account_name,
}
use slopd.Accounts.Resolve.{ResolveError, panicked, infer_from_program, resolve_account}

-- The executable for the backend that the pane had.
abbrev pub fit : Option Backend → Backend → Executable → Executable
fit none backend e = e
fit (some inferred) backend e =
    if backend_eq inferred backend then e else string (canonical_executable backend)

abbrev pub with_backend : ResolvedAccount → Backend → Option Backend → ResolvedAccount
with_backend r backend inferred = record r {
  backend = backend;
  executable = fit inferred backend r.executable;
}

abbrev pub restored : ResolvedAccount → Backend → Result ResolveError ResolvedAccount
restored r backend = if backend_eq r.backend backend then ok r else elim (program r.executable) [
  | none ↦ err panicked
  | some p ↦ ok (with_backend r backend (infer_from_program p))
]

-- `or_else`, and the panic of `expect`. A panic is not an error to fall back from.
abbrev pub or_default :
    Result ResolveError ResolvedAccount
    → Result ResolveError ResolvedAccount
    → Result ResolveError ResolvedAccount
or_default (ok r) default = ok r
or_default (err panicked) default = err panicked
or_default (err e) (ok r) = ok r
or_default (err e) (err f) = err panicked

abbrev pub restored_result :
    Result ResolveError ResolvedAccount → Backend → Result ResolveError ResolvedAccount
restored_result (err e) backend = err e
restored_result (ok r) backend = restored r backend

unfoldable pub resolve_restore_account :
    (String → String) → SlopdConfig → String → Backend → Result ResolveError ResolvedAccount
unfolding infer_from_program
resolve_restore_account expand_path config account backend =
    restored_result
      (or_default (resolve_account expand_path config (some account))
        (resolve_account expand_path config (some default_account_name)))
      backend
