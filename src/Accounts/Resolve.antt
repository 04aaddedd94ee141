-- ===== src/Accounts/Resolve.antt =====
-- libslop/src/lib.rs: `Backend::infer_from_program`, `Backend::resolve` and `resolve_account`.
-- `expand_path` calls the `shellexpand` crate on the environment: it is a parameter.
use Prim.Native.Char.{code}
use slopd.Base.{
  String, Option, none, some, List, [], ◌∷◌, Map, get, string_eq, Result, ok, err, or_else,
  unwrap_or, and_then, map_option, map, nat_eq, ◌==◌, if◌then◌else◌, ◌++◌, ◌>>=◌,
}
use slopd.Pane.Agent.{Backend, claude, opencode, codex, grok, backend_eq, canonical_executable}
use slopd.Accounts.Config.{
  Executable, string, program, AccountConfig, config_dir_of, backend_of, executable_of, SlopdConfig,
  ResolvedAccount, default_account_name,
}

pub data ResolveError : Type 0 where
  conflict : (asked : Backend) (program : String) (inferred : Backend) → ResolveError
  unknown_account : (name : String) (configured : List String) → ResolveError
  panicked : ResolveError

-- `rsplit('/').next()`: what follows the last slash.
abbrev after_slash : String → String → String
after_slash best String.[] = best
after_slash best (String.◌∷◌ c s) = after_slash (if nat_eq (code c) 47 then s else best) s

unfoldable pub base_name : String → String
base_name s = after_slash s s

-- `trim_end_matches(".exe")`: the suffix is taken off as often as it stands there.
unfoldable pub trim_exe : String → String
trim_exe String.[] = String.[]
trim_exe (String.◌∷◌ c s) =
    let rest = trim_exe s in if String.◌∷◌ c rest == ".exe" then String.[] else String.◌∷◌ c rest

unfoldable pub infer_from_program : String → Option Backend
unfolding base_name trim_exe
infer_from_program p =
    let base = trim_exe (base_name p) in
    if base == "claude"
    then some claude
    else if base == "opencode"
    then some opencode
    else if base == "codex"
    then some codex
    else if base == "grok"
    then some grok
    else none

abbrev pub inferred_of : Option Executable → Result ResolveError (Option Backend)
inferred_of none = ok none
inferred_of (some e) = elim (program e) [ none ↦ err panicked | some p ↦ ok (infer_from_program p) ]

abbrev program_text : Option Executable → String
program_text none = ""
program_text (some e) = unwrap_or (program e) ""

-- The explicit backend against the inferred one.
abbrev pub resolve_with :
    Option Backend → Option Executable → Option Backend → Result ResolveError (Backend × Executable)
resolve_with (some asked) e (some inferred) =
    if backend_eq asked inferred
    then ok (asked, unwrap_or e (string (canonical_executable asked)))
    else err (conflict asked (program_text e) inferred)
resolve_with (some asked) e none = ok (asked, unwrap_or e (string (canonical_executable asked)))
resolve_with none e (some inferred) =
    ok (inferred, unwrap_or e (string (canonical_executable inferred)))
resolve_with none e none = ok (claude, unwrap_or e (string (canonical_executable claude)))

unfoldable pub resolve :
    Option Backend → Option Executable → Result ResolveError (Backend × Executable)
unfolding program
resolve b e = do inferred ← inferred_of e; resolve_with b e inferred

abbrev pub resolved_as : String → Option String → Backend × Executable → ResolvedAccount
resolved_as name dir (backend, executable) = record {
  name = name;
  config_dir = dir;
  backend = backend;
  executable = executable;
}

abbrev pub names : Map String AccountConfig → List String
names accounts = map (λ (a : String × AccountConfig). a.0) accounts ++ default_account_name ∷ []

module _ (expand_path : String → String) where
  -- `[accounts.default]`, then the top level.
  unfoldable pub resolve_default : SlopdConfig → Result ResolveError ResolvedAccount
  unfolding resolve
  resolve_default config =
      let account = get config.accounts default_account_name in
      let dir =
        or_else (map_option expand_path (and_then account config_dir_of))
          (map_option expand_path config.config_dir) in
      do
        r ←
            resolve (or_else (and_then account backend_of) config.backend)
              (or_else (and_then account executable_of) config.run_executable)
        ok (resolved_as default_account_name dir r)

  unfoldable pub resolve_named : SlopdConfig → String → Result ResolveError ResolvedAccount
  unfolding resolve
  resolve_named config name = elim (get config.accounts name) [
    | none ↦ err (unknown_account name (names config.accounts))
    | some account ↦ do
      r ← resolve (backend_of account) (or_else (executable_of account) config.run_executable)
      ok (resolved_as name (map_option expand_path (config_dir_of account)) r)
  ]

  unfoldable pub resolve_account : SlopdConfig → Option String → Result ResolveError ResolvedAccount
  unfolding resolve_default resolve_named
  resolve_account config requested =
      let name = unwrap_or (or_else requested config.default_account) default_account_name in
      if name == default_account_name then resolve_default config else resolve_named config name
