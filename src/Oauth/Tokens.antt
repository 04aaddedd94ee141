-- ===== src/Oauth/Tokens.antt =====
-- slopd-mcp/src/oauth.rs, `token`: which exchanges of a code give a token.
use slopd.Base.{
  ℕ, ◌<◌, String, Bool, true, Option, none, some, get, remove_key, string_eq, ok, err, leb, ◌==◌,
  if◌then◌else◌, ◌≡◌, refl, sym, ap, ◌∙◌, arith, Bool-cases, inl, inr, and_true, eq_iff, is_none_or,
  ◌⊎◌,
}
use slopd.Oauth.Store.{
  AuthCode, Inner, take_code, unexpired, put_token, TokenForm, unsupported_grant_type,
  invalid_grant, allows, answer, exchange, token,
}

-- The form redeems a code that was issued to it: the code is known and has not expired, the client,
-- the redirect URI and the resource are the code's, and the verifier hashes to its challenge.
pub record IsGranted (pkce : String → String) (now : ℕ) (form : TokenForm) (s : Inner)
    : Type 0 where
  pub redeemed : AuthCode
  pub known : get s.codes form.code ≡ some redeemed
  pub in_time : now < redeemed.expires
  pub same_client : redeemed.client_id ≡ form.client_id
  pub same_redirect : redeemed.redirect_uri ≡ form.redirect_uri
  pub same_resource : (redeemed.resource ≡ none) ⊎ (redeemed.resource ≡ some form.resource)
  pub verified : pkce form.code_verifier ≡ redeemed.challenge

resource_fits :
    (o : Option String) (r : String) → is_none_or o (λ x. x == r) ≡ true → (o ≡ none) ⊎ (o ≡ some r)
resource_fits none r h = inl refl
resource_fits (some x) r h = inr (ap some ((eq_iff x r).0 h))

module _ (pkce_s256 : String → String) where
  granted_by :
      (now : ℕ) (secret t : String) (form : TokenForm) (s u : Inner) (o : Option AuthCode)
      → (exchange pkce_s256 form secret
          (elim o [ none ↦ (none, s) | some c ↦ (unexpired now c, u) ])).0
        ≡ ok t
      → (c : AuthCode) × (o ≡ some c) × (now < c.expires) × (allows pkce_s256 c form ≡ true)
  granted_by now secret t form s u none h = absurd cc
  granted_by now secret t form s u (some c) h = elim (Bool-cases (leb c.expires now)) [
    | inl e ↦ absurd (
        late (
          ap (λ (b : Bool). (exchange pkce_s256 form secret (if b then none else some c, u)).0)
            (sym e)
          ∙ h))
    | inr e ↦ (
      c,
      refl,
      ground (arith, e),
      passes (
          ap (λ (b : Bool). (exchange pkce_s256 form secret (if b then none else some c, u)).0)
            (sym e)
          ∙ h),
    )
  ]
    where
      late : err invalid_grant ≡ ok t → ⊥
      late e = cc

      passes :
          (exchange pkce_s256 form secret (some c, u)).0 ≡ ok t → allows pkce_s256 c form ≡ true
      passes k = elim (Bool-cases (allows pkce_s256 c form)) [
        | inl f ↦ f
        | inr f ↦ absurd (
            late (
              ap
                (λ (b : Bool).
                  (if b
                    then answer secret (put_token secret c.resource u)
                    else (err invalid_grant, u)).0)
                (sym f)
              ∙ k))
      ]

  allows-IsGranted :
      (now : ℕ) (form : TokenForm) (s : Inner) (c : AuthCode)
      → get s.codes form.code ≡ some c
      → now < c.expires
      → allows pkce_s256 c form ≡ true
      → IsGranted pkce_s256 now form s
  unfolding allows
  allows-IsGranted now form s c found early h =
      let parts = and_true _ _ h in
      let front = and_true _ _ parts.0 in
      let ends = and_true _ _ front.0 in
      record {
        redeemed = c;
        known = found;
        in_time = early;
        same_client = (eq_iff _ _).0 ends.0;
        same_redirect = (eq_iff _ _).0 ends.1;
        same_resource = resource_fits c.resource form.resource front.1;
        verified = (eq_iff _ _).0 parts.1;
      }

  -- A token is only given for a code that was issued to the same client and redirect URI, for the
  -- same resource, has not expired, and whose challenge the verifier answers.
  pub token-IsGranted :
      (now : ℕ) (secret t : String) (form : TokenForm) (s : Inner)
      → (token pkce_s256 now secret form s).0 ≡ ok t
      → IsGranted pkce_s256 now form s
  unfolding token take_code
  token-IsGranted now secret t form s h =
      elim (Bool-cases (form.grant_type == "authorization_code")) [
        | inl e ↦ by_code (
            granted_by now secret t form s (record s { codes = remove_key form.code s.codes })
              (get s.codes form.code)
              (ap
                  (λ (b : Bool).
                    (if b
                      then exchange pkce_s256 form secret (take_code now form.code s)
                      else (err unsupported_grant_type, s)).0)
                  (sym e)
                ∙ h))
        | inr e ↦ absurd cc
      ]
    where
      by_code :
          (c : AuthCode) × (get s.codes form.code ≡ some c)
            × (now < c.expires)
            × (allows pkce_s256 c form ≡ true)
          → IsGranted pkce_s256 now form s
      by_code (c, found, early, passed) = allows-IsGranted now form s c found early passed
