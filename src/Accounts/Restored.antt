-- ===== src/Accounts/Restored.antt =====
-- slopd/src/main.rs, `resolve_restore_account`: what a restored pane is launched with.
use text.Mathlib.TextEquality.{eq_iff}
use slopd.Base.{
  String, true, Option, none, some, Result, ok, err, ◌≡◌, ◌≢◌, subst, refl, Bool-cases, inl, inr,
  string_eq, or_else, and_then, get, ◌==◌, false, ◌⊎◌,
}
use slopd.Pane.Agent.{Backend, backend_eq, backend_eq_iff}
use slopd.Accounts.Config.{
  backend_of, executable_of, Executable, program, SlopdConfig, ResolvedAccount,
  default_account_name,
}
use slopd.Accounts.Resolve.{
  inferred_of, ResolveError, panicked, conflict, infer_from_program, resolve_account,
  unknown_account, resolve, resolve_default, resolve_named, names,
}
use slopd.Accounts.Restore.{resolve_restore_account, or_default, restored, restored_result, fit}
use slopd.Accounts.Fits.{
  fits, AccountFits, fits-program, canonical-fits, resolve_account-fits, is_ok,
}
use slopd.Accounts.Restore.{with_backend}

-- A result that is an account with the pane's own backend and an executable that fits it.
abbrev pub IsRestored : Backend → Result ResolveError ResolvedAccount → Type 0
IsRestored b (err e) = ⊥
IsRestored b (ok r) = (r.backend ≡ b) × (fits b r.executable ≡ true)

fit-fits :
    (i : Option Backend) (b : Backend) (e : Executable) (p : String)
    → program e ≡ some p
    → infer_from_program p ≡ i
    → fits b (fit i b e) ≡ true
fit-fits none b e p h k = fits-program b e p h (rw k refl)
fit-fits (some i) b e p h k = elim (Bool-cases (backend_eq i b)) [
  | inl f ↦ rw f (fits-program b e p h (rw k f))
  | inr f ↦ rw f (canonical-fits b)
]

restored-IsRestored :
    (r : ResolvedAccount) (b : Backend)
    → fits r.backend r.executable ≡ true
    → IsRestored b (restored r b)
unfolding fits
restored-IsRestored r b h = elim (Bool-cases (backend_eq r.backend b)) [
  | inl f ↦
      let same : r.backend ≡ b = (backend_eq_iff r.backend b).0 f in
      rw f (same, subst (λ x. fits x r.executable ≡ true) same h)
  | inr f ↦ rw f (by_program (program r.executable) refl)
]
  where
    by_program :
        (o : Option String)
        → program r.executable ≡ o
        → IsRestored b
            (elim o [ none ↦ err panicked | some p ↦ ok (with_backend r b (infer_from_program p)) ])
    by_program none e = absurd cc
    by_program (some p) e = (refl, fit-fits (infer_from_program p) b r.executable p e refl)

or_default-fits :
    (x y : Result ResolveError ResolvedAccount)
    → AccountFits x
    → AccountFits y
    → AccountFits (or_default x y)
or_default-fits (ok r) y h k = h
or_default-fits (err panicked) y h k = tt
or_default-fits (err (conflict a p i)) (ok r) h k = k
or_default-fits (err (conflict a p i)) (err f) h k = tt
or_default-fits (err (unknown_account n ns)) (ok r) h k = k
or_default-fits (err (unknown_account n ns)) (err f) h k = tt

or_default-is_ok :
    (x y : Result ResolveError ResolvedAccount)
    → x ≢ err panicked
    → is_ok y ≡ true
    → is_ok (or_default x y) ≡ true
or_default-is_ok (ok r) y h k = refl
or_default-is_ok (err panicked) y h k = absurd (h refl)
or_default-is_ok (err (conflict a p i)) (ok r) h k = refl
or_default-is_ok (err (conflict a p i)) (err f) h k = cc
or_default-is_ok (err (unknown_account n ns)) (ok r) h k = refl
or_default-is_ok (err (unknown_account n ns)) (err f) h k = cc

restored_result-IsRestored :
    (x : Result ResolveError ResolvedAccount) (b : Backend)
    → AccountFits x
    → is_ok x ≡ true
    → IsRestored b (restored_result x b)
restored_result-IsRestored (ok r) b h k = restored-IsRestored r b h
restored_result-IsRestored (err e) b h k = absurd cc

-- A pane whose account is gone or contradicts itself is still restored with the backend it had, and
-- never with an executable that stands for another agent, if the default account resolves and the
-- pane's account has no empty command.
pub resolve_restore_account-IsRestored :
    (expand_path : String → String) (config : SlopdConfig) (account : String) (b : Backend)
    → resolve_account expand_path config (some account) ≢ err panicked
    → is_ok (resolve_account expand_path config (some default_account_name)) ≡ true
    → IsRestored b (resolve_restore_account expand_path config account b)
unfolding resolve_restore_account
resolve_restore_account-IsRestored expand_path config account b h k =
    let x = resolve_account expand_path config (some account) in
    let y = resolve_account expand_path config (some default_account_name) in
    restored_result-IsRestored (or_default x y) b
      (or_default-fits x y (resolve_account-fits expand_path config (some account))
        (resolve_account-fits expand_path config (some default_account_name)))
      (or_default-is_ok x y h k)

-- The configuration gives the default account a backend, itself or at the top level, and an
-- executable that stands for another one.
pub record IsContradicting (config : SlopdConfig) : Type 0 where
  pub asked : Backend
  pub inferred : Backend
  pub executable : Executable
  pub text : String
  pub has_backend :
      or_else (and_then (get config.accounts default_account_name) backend_of) config.backend
      ≡ some asked
  pub has_executable :
      or_else
        (and_then (get config.accounts default_account_name) executable_of)
        config.run_executable
      ≡ some executable
  pub has_program : program executable ≡ some text
  pub stands_for : infer_from_program text ≡ some inferred
  pub differ : asked ≢ inferred

default-conflict :
    (expand_path : String → String) (config : SlopdConfig) (h : IsContradicting config)
    → resolve_account expand_path config (some default_account_name)
      ≡ err (conflict h.asked h.text h.inferred)
unfolding resolve_account resolve_default resolve
default-conflict expand_path config h = elim (Bool-cases (backend_eq h.asked h.inferred)) [
  | inl e ↦ absurd (h.differ ((backend_eq_iff h.asked h.inferred).0 e))
  | inr e ↦
      rw (h.has_backend, h.has_executable, inferred_of, h.has_program, h.stands_for, e)
        (rw h.has_program refl)
]

resolve_named-unknown :
    (expand_path : String → String) (config : SlopdConfig) (name : String)
    → get config.accounts name ≡ none
    → resolve_named expand_path config name ≡ err (unknown_account name (names config.accounts))
unfolding resolve_named
resolve_named-unknown expand_path config name k = rw (resolve_named, k) refl

unlisted-unknown :
    (expand_path : String → String) (config : SlopdConfig) (name : String)
    → (name == default_account_name) ≡ false
    → get config.accounts name ≡ none
    → resolve_account expand_path config (some name)
      ≡ err (unknown_account name (names config.accounts))
unfolding resolve_account
unlisted-unknown expand_path config name e k =
    rw e (resolve_named-unknown expand_path config name k)

-- The default account does not always resolve: if the backend that is configured for it contradicts
-- its executable, restoring a pane of the default account, or of an account that is no longer
-- configured, panics.
pub resolve_restore_account-panics :
    (expand_path : String → String) (config : SlopdConfig) (account : String) (b : Backend)
    → IsContradicting config
    → (account ≡ default_account_name) ⊎ (get config.accounts account ≡ none)
    → resolve_restore_account expand_path config account b ≡ err panicked
unfolding resolve_restore_account
resolve_restore_account-panics expand_path config account b h (inl e) =
    rw (e, default-conflict expand_path config h) refl
resolve_restore_account-panics expand_path config account b h (inr gone) =
    elim (Bool-cases (account == default_account_name)) [
      | inl e ↦
          rw ((eq_iff account default_account_name).0 e, default-conflict expand_path config h) refl
      | inr e ↦
          rw
            (
              default-conflict expand_path config h,
              unlisted-unknown expand_path config account e gone,
            )
            refl
    ]
