-- ===== src/Accounts/Fits.antt =====
-- libslop/src/lib.rs, `resolve` and `resolve_account`: how the executable relates to the backend.
use slopd.Base.{
  String, Bool, true, false, Option, none, some, Result, ok, err, ◌≡◌, refl, sym, arith, Bool-cases,
  inl, inr, ◌>>=◌, unwrap_or, or_else, map_option, get, string_eq, ◌==◌, [], ◌∷◌,
}
use slopd.Pane.Agent.{Backend, claude, backend_eq, backend_eq_iff, canonical_executable}
use slopd.Accounts.Config.{
  Executable, string, array, program, SlopdConfig, AccountConfig, config_dir_of, backend_of,
  executable_of, ResolvedAccount, default_account_name,
}
use slopd.Accounts.Resolve.{
  ResolveError, infer_from_program, resolve_with, resolve, resolve_account, resolve_default,
  resolve_named, resolved_as, names, unknown_account,
}

abbrev pub agrees : Option Backend → Backend → Bool
agrees none b = true
agrees (some i) b = backend_eq i b

-- Whether the program is one that infers no other backend than `b`.
unfoldable pub fits : Backend → Executable → Bool
fits b e = elim (program e) [ none ↦ false | some p ↦ agrees (infer_from_program p) b ]

-- An explicit backend, and an executable, that do not contradict each other.
unfoldable pub is_compatible : Option Backend → Option Executable → Bool
unfolding fits
is_compatible b none = true
is_compatible none (some e) = elim (program e) [ none ↦ false | some p ↦ true ]
is_compatible (some b) (some e) = fits b e

abbrev pub is_ok {ℓ} : {E A : Type ℓ} → Result E A → Bool
is_ok (ok a) = true
is_ok (err e) = false

pub backend_eq_refl : (b : Backend) → backend_eq b b ≡ true
backend_eq_refl b = (backend_eq_iff b b).1 refl

pub canonical-fits : (b : Backend) → fits b (string (canonical_executable b)) ≡ true
unfolding fits program infer_from_program backend_eq canonical_executable
canonical-fits claude = refl
canonical-fits _ = refl

-- An explicit backend and an explicit executable resolve exactly when the executable names a
-- program, and that program does not imply a backend other than the explicit one.
pub is_ok-resolve :
    (b : Option Backend) (e : Option Executable) → is_ok (resolve b e) ≡ is_compatible b e
unfolding resolve is_compatible fits program backend_eq
is_ok-resolve none none = refl
is_ok-resolve (some b) none = refl
is_ok-resolve none (some (string p)) = ground arith
is_ok-resolve none (some (array [])) = refl
is_ok-resolve none (some (array (p ∷ args))) = ground arith
is_ok-resolve (some b) (some (string p)) = ground arith
is_ok-resolve (some b) (some (array [])) = refl
is_ok-resolve (some b) (some (array (p ∷ args))) = ground arith

-- What a resolution gives: the executable fits the backend, and nothing explicit is overridden.
abbrev pub IsFitting :
    Option Backend → Option Executable → Result ResolveError (Backend × Executable) → Type 0
IsFitting b e (err x) = Unit
IsFitting b e (ok (backend, executable)) =
    (fits backend executable ≡ true)
    × (unwrap_or b backend ≡ backend)
    × (unwrap_or e executable ≡ executable)

pub fits-program :
    (b : Backend) (e : Executable) (p : String)
    → program e ≡ some p
    → agrees (infer_from_program p) b ≡ true
    → fits b e ≡ true
unfolding fits
fits-program b e p h k = rw (h, fits) k

resolve_some-IsFitting :
    (b : Option Backend) (e : Executable) (p : String) (i : Option Backend)
    → program e ≡ some p
    → infer_from_program p ≡ i
    → IsFitting b (some e) (resolve_with b (some e) i)
resolve_some-IsFitting none e p none h k = (fits-program claude e p h (rw k refl), refl, refl)
resolve_some-IsFitting none e p (some i) h k =
    (fits-program i e p h (rw k (backend_eq_refl i)), refl, refl)
resolve_some-IsFitting (some b) e p none h k = (fits-program b e p h (rw k refl), refl, refl)
resolve_some-IsFitting (some b) e p (some i) h k = elim (Bool-cases (backend_eq b i)) [
  | inr f ↦ rw f tt
  | inl f ↦
      let same : i ≡ b = sym ((backend_eq_iff b i).0 f) in
      rw f (fits-program b e p h (rw (k, same) (backend_eq_refl b)), refl, refl)
]

-- Whatever a resolution returns, the executable is not one that stands for an agent other than
-- the backend's, an explicit backend is the one in effect, and an explicit executable is kept.
pub resolve-IsFitting : (b : Option Backend) (e : Option Executable) → IsFitting b e (resolve b e)
unfolding resolve
resolve-IsFitting none none = (canonical-fits claude, refl, refl)
resolve-IsFitting (some b) none = (canonical-fits b, refl, refl)
resolve-IsFitting b (some (string p)) = resolve_some-IsFitting b (string p) p _ refl refl
resolve-IsFitting b (some (array [])) = tt
resolve-IsFitting b (some (array (p ∷ args))) =
    resolve_some-IsFitting b (array (p ∷ args)) p _ refl refl

-- The account of a resolution.
abbrev pub AccountFits : Result ResolveError ResolvedAccount → Type 0
AccountFits (err e) = Unit
AccountFits (ok r) = fits r.backend r.executable ≡ true

abbrev then_account :
    (Backend × Executable → ResolvedAccount)
    → Result ResolveError (Backend × Executable)
    → Result ResolveError ResolvedAccount
then_account f r = r >>= (λ x. ok (f x))

result_fits :
    (name : String) (dir : Option String) (b : Option Backend) (e : Option Executable)
    (r : Result ResolveError (Backend × Executable))
    → IsFitting b e r
    → AccountFits (then_account (resolved_as name dir) r)
result_fits name dir b e (err x) h = tt
result_fits name dir b e (ok (backend, executable)) h = h.0

then_account-fits :
    (name : String) (dir : Option String) (b : Option Backend) (e : Option Executable)
    → AccountFits (then_account (resolved_as name dir) (resolve b e))
then_account-fits name dir b e = result_fits name dir b e (resolve b e) (resolve-IsFitting b e)

module _ (expand_path : String → String) (config : SlopdConfig) where
  resolve_default-fits : AccountFits (resolve_default expand_path config)
  unfolding resolve_default
  resolve_default-fits = then_account-fits _ _ _ _

  named_fits :
      (name : String) (account : Option AccountConfig)
      → AccountFits (elim account [
        | none ↦ err (unknown_account name (names config.accounts))
        | some a ↦
            then_account
              (resolved_as name (map_option expand_path (config_dir_of a)))
              (resolve (backend_of a) (or_else (executable_of a) config.run_executable))
      ])
  named_fits name none = tt
  named_fits name (some a) = then_account-fits _ _ _ _

  resolve_named-fits : (name : String) → AccountFits (resolve_named expand_path config name)
  unfolding resolve_named
  resolve_named-fits name = named_fits name (get config.accounts name)

  pub resolve_account-fits :
      (requested : Option String) → AccountFits (resolve_account expand_path config requested)
  unfolding resolve_account
  resolve_account-fits requested =
      elim (Bool-cases (
        unwrap_or (or_else requested config.default_account) default_account_name
        == default_account_name)) [
          | inl e ↦ rw e resolve_default-fits
          | inr e ↦ rw e (
              resolve_named-fits
                (unwrap_or (or_else requested config.default_account) default_account_name))
        ]
