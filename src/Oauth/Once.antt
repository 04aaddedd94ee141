-- ===== src/Oauth/Once.antt =====
-- slopd-mcp/src/oauth.rs, `token`: exchanging a code more than once.
use slopd.Base.{
  ℕ, String, Bool, true, false, Option, none, some, List, [], ◌∷◌, Map, get, remove_key, string_eq,
  get-remove_key, err, ◌≡◌, refl, ap, ◌∙◌, Bool-cases, inl, inr, eq_refl, eq_iff,
}
use slopd.Oauth.Store.{
  AuthCode, AccessToken, token_issued, Inner, log, synced, take_code, unexpired, put_token, issued,
  TokenForm, invalid_grant, allows, answer, exchange, token,
}
use slopd.Oauth.File.{Outcome, is_works, written}

synced-codes :
    (b : Bool) (fs : List Outcome) (s : Inner) (t : String) (a : AccessToken)
    → (issued t a (synced b fs s)).1.codes ≡ s.codes
synced-codes false fs s t a = refl
synced-codes true [] s t a = refl
synced-codes true (sync ∷ fs) s t a = by_sync (is_works sync)
  where
    by_sync : (b : Bool) → (issued t a (b, record s { faults = fs })).1.codes ≡ s.codes
    by_sync true = refl
    by_sync false = refl

issued-codes :
    (s : Inner) (t : String) (a : AccessToken) (faults : List Outcome)
    → (issued t a (log (token_issued t a) faults s)).1.codes ≡ s.codes
issued-codes s t a [] = refl
issued-codes s t a (o ∷ fs) =
    synced-codes (is_works o) fs (record s { file = written o (token_issued t a) s.file }) t a

answer-codes : (secret : String) (r : Bool × Inner) → (answer secret r).1.codes ≡ r.1.codes
answer-codes secret (true, s) = refl
answer-codes secret (false, s) = refl

module _ (pkce_s256 : String → String) where
  exchange-codes :
      (form : TokenForm) (secret : String) (o : Option AuthCode) (s : Inner)
      → (exchange pkce_s256 form secret (o, s)).1.codes ≡ s.codes
  unfolding put_token
  exchange-codes form secret none s = refl
  exchange-codes form secret (some c) s = elim (Bool-cases (allows pkce_s256 c form)) [
    | inr e ↦ rw e refl
    | inl e ↦ rw e (
        answer-codes secret (put_token secret c.resource s)
        ∙ issued-codes s secret (record { binding = s.binding; resource = c.resource }) s.faults)
  ]

  taken-codes :
      (now : ℕ) (form : TokenForm) (secret : String) (s : Inner) (o : Option AuthCode)
      → get s.codes form.code ≡ o
      → get
          (exchange pkce_s256 form secret (elim o [
            | none ↦ (none, s)
            | some c ↦ (unexpired now c, record s { codes = remove_key form.code s.codes })
          ])).1.codes
          form.code
        ≡ none
  taken-codes now form secret s none e = e
  taken-codes now form secret s (some c) e =
      ap (λ (m : Map String AuthCode). get m form.code)
        (exchange-codes form secret (unexpired now c)
          (record s { codes = remove_key form.code s.codes }))
      ∙ (get-remove_key form.code form.code s.codes ∙ rw (eq_refl form.code) refl)

  token-codes :
      (now : ℕ) (secret : String) (form : TokenForm) (s : Inner)
      → form.grant_type ≡ "authorization_code"
      → get (token pkce_s256 now secret form s).1.codes form.code ≡ none
  unfolding token take_code
  token-codes now secret form s h =
      rw ((eq_iff form.grant_type "authorization_code").1 h)
        (taken-codes now form secret s (get s.codes form.code) refl)

  no_code :
      (now : ℕ) (form : TokenForm) (secret : String) (s : Inner) (o : Option AuthCode)
      → o ≡ none
      → (exchange pkce_s256 form secret (elim o [
        | none ↦ (none, s)
        | some c ↦ (unexpired now c, record s { codes = remove_key form.code s.codes })
      ])).0
        ≡ err invalid_grant
  no_code now form secret s none e = refl
  no_code now form secret s (some c) e = absurd cc

  gone :
      (now : ℕ) (secret : String) (form : TokenForm) (s : Inner)
      → form.grant_type ≡ "authorization_code"
      → get s.codes form.code ≡ none
      → (token pkce_s256 now secret form s).0 ≡ err invalid_grant
  unfolding token take_code
  gone now secret form s h k =
      rw ((eq_iff form.grant_type "authorization_code").1 h)
        (no_code now form secret s (get s.codes form.code) k)

  -- An exchange uses its code up, whether it succeeds or is refused: a second exchange of the same
  -- code, by whatever form and at whatever time, gives `invalid_grant`.
  pub token-once :
      (now later : ℕ) (secret secret_2 : String) (form form_2 : TokenForm) (s : Inner)
      → form.grant_type ≡ "authorization_code"
      → form_2.grant_type ≡ "authorization_code"
      → form_2.code ≡ form.code
      → (token pkce_s256 later secret_2 form_2 (token pkce_s256 now secret form s).1).0
        ≡ err invalid_grant
  token-once now later secret secret_2 form form_2 s h k same =
      gone later secret_2 form_2 (token pkce_s256 now secret form s).1 k (
        ap (get (token pkce_s256 now secret form s).1.codes) same ∙ token-codes now secret form s h)
