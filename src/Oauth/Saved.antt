-- ===== src/Oauth/Saved.antt =====
-- slopd-mcp/src/oauth.rs: the tokens in memory and those in the file.
use slopd.Base.{
  ℕ, String, Bool, true, false, ◌&&◌, Option, none, some, List, [], ◌∷◌, Map, get, remove_key,
  string_eq, is_none_or, ◌==◌, ◌≡◌, refl, sym, ◌∙◌, arith, Bool-cases, inl, inr, subst, Result, ok,
  err,
}
use slopd.Oauth.Store.{
  Client, AuthCode, AccessToken, OauthEvent, version, client_registered, Inner, replay_tokens, log,
  open_store, opened_with, versioned, if_logged, register, registered, put_code, take_code,
  unexpired, put_token, token_valid, TokenForm, allows, answer, exchange, token,
}
use slopd.Oauth.File.{
  EventFile, Line, Tail, Outcome, clean, part, unended, repaired_lines, repaired, replayed, IsWhole,
  events, events-append, IsWhole-whole, drop_spoiled-whole, replayed-whole, replayed-events,
}
use slopd.Oauth.Logged.{SparesTail, InFile, IsSaved, spared-InFile, issued-IsSaved, logged-IsSaved}

registered-IsSaved :
    (id : String) (c : Client) (r : Bool × Inner) → IsSaved r.1 → IsSaved (registered id c r).1
registered-IsSaved id c (true, s) h = h
registered-IsSaved id c (false, s) h = h

-- What holds of the store, if the opening succeeds.
abbrev IfOpened : (Inner → Type 0) → Result (Unit {0}) Inner → Type 0
IfOpened P (ok s) = P s
IfOpened P (err e) = Unit

logged-IfOpened : (r : Bool × Inner) → IsSaved r.1 → IfOpened IsSaved (if_logged r)
logged-IfOpened (true, s) h = h
logged-IfOpened (false, s) h = tt

versioned-IsSaved :
    (ls : List (Line OauthEvent)) (s : Inner) → IsSaved s → IfOpened IsSaved (versioned ls s)
versioned-IsSaved [] s h =
    logged-IfOpened (log (version 1) s.faults s) (logged-IsSaved (version 1) s.faults s tt h)
versioned-IsSaved (l ∷ ls) s h = h

opened_with-IsSaved :
    (ls : List (Line OauthEvent)) (binding : String) (faults : List Outcome)
    (r : Result (Unit {0}) (List OauthEvent))
    → replayed ls ≡ r
    → IfOpened IsSaved (opened_with (record { lines = ls; tail = clean }) binding faults r)
opened_with-IsSaved ls binding faults (err e) same = tt
opened_with-IsSaved ls binding faults (ok es) same = versioned-IsSaved ls _ (record {
  in_lines = λ w t a found.
      subst (λ xs. get (replay_tokens [] xs) t ≡ some a) (sym (replayed-events ls es w same)) found;
  in_tail = tt;
})

open_store-IsSaved :
    (file : EventFile OauthEvent) (binding : String) (faults : List Outcome)
    → IfOpened IsSaved (open_store file binding faults)
unfolding open_store
open_store-IsSaved file binding faults =
    opened_with-IsSaved (repaired file).lines binding faults (replayed (repaired file).lines) refl

-- Whether a token is accepted depends on its entry and on the binding.
entry_valid : Option AccessToken → String → String → Bool
entry_valid none binding resource = false
entry_valid (some a) binding resource =
    a.binding == binding && is_none_or a.resource (λ r. r == resource)

entry_valid-found :
    (o p : Option AccessToken) (binding resource : String)
    → ((a : AccessToken) → o ≡ some a → p ≡ some a)
    → entry_valid o binding resource ≡ true
    → entry_valid p binding resource ≡ true
unfolding entry_valid
entry_valid-found none p binding resource k h = cc
entry_valid-found (some a) p binding resource k h = rw (k a refl) h

token_valid-entry :
    (t resource : String) (s : Inner)
    → token_valid t resource s ≡ entry_valid (get s.tokens t) s.binding resource
unfolding token_valid entry_valid
token_valid-entry t resource s = ground arith

-- The opening succeeds and the store accepts the token.
abbrev pub IsAccepted : String → String → Result (Unit {0}) Inner → Type 0
IsAccepted t resource (err e) = ⊥
IsAccepted t resource (ok s) = token_valid t resource s ≡ true

versioned_accepts :
    (ls : List (Line OauthEvent)) (binding : String) (faults : List Outcome) (t resource : String)
    → entry_valid (get (replay_tokens [] (events ls)) t) binding resource ≡ true
    → IsAccepted t resource
        (opened_with (record { lines = ls; tail = clean }) binding faults (ok (events ls)))
unfolding replay_tokens get entry_valid
versioned_accepts [] binding faults t resource h = absurd (ground (arith, h))
versioned_accepts (l ∷ ls) binding faults t resource h = token_valid-entry t resource _ ∙ h

-- The lines after the repair of a whole file are whole, and hold the tokens of the memory.
repaired_lines-InFile :
    (m : Map String AccessToken) (ls : List (Line OauthEvent)) (t : Tail OauthEvent)
    → IsWhole ls
    → InFile m (events ls)
    → SparesTail m t
    → IsWhole (repaired_lines ls t) × InFile m (events (repaired_lines ls t))
repaired_lines-InFile m ls clean w h k = rw (drop_spoiled-whole ls w) (w, h)
repaired_lines-InFile m ls part w h k = (w, h)
repaired_lines-InFile m ls (unended e) w h k = (
  IsWhole-whole ls e w,
  subst (InFile m) (sym (events-append ls e)) (spared-InFile m (events ls) e k h),
)

module _ (pkce_s256 : String → String) where
  answer-IsSaved : (secret : String) (r : Bool × Inner) → IsSaved r.1 → IsSaved (answer secret r).1
  answer-IsSaved secret (true, s) h = h
  answer-IsSaved secret (false, s) h = h

  exchange-IsSaved :
      (form : TokenForm) (secret : String) (o : Option AuthCode) (s : Inner)
      → IsSaved s
      → get s.tokens secret ≡ none
      → IsSaved (exchange pkce_s256 form secret (o, s)).1
  unfolding put_token
  exchange-IsSaved form secret none s h fresh = h
  exchange-IsSaved form secret (some c) s h fresh = elim (Bool-cases (allows pkce_s256 c form)) [
    | inr e ↦ rw e h
    | inl e ↦ rw e (
        answer-IsSaved secret (put_token secret c.resource s) (
          issued-IsSaved s secret (record { binding = s.binding; resource = c.resource }) s.faults h
            fresh))
  ]

  taken-IsSaved :
      (now : ℕ) (form : TokenForm) (secret : String) (s : Inner) (o : Option AuthCode)
      → IsSaved s
      → get s.tokens secret ≡ none
      → IsSaved
          (exchange pkce_s256 form secret (elim o [
            | none ↦ (none, s)
            | some c ↦ (unexpired now c, record s { codes = remove_key form.code s.codes })
          ])).1
  taken-IsSaved now form secret s none h fresh = h
  taken-IsSaved now form secret s (some c) h fresh =
      exchange-IsSaved form secret (unexpired now c)
        (record s { codes = remove_key form.code s.codes }) h fresh

  token-IsSaved :
      (now : ℕ) (secret : String) (form : TokenForm) (s : Inner)
      → IsSaved s
      → get s.tokens secret ≡ none
      → IsSaved (token pkce_s256 now secret form s).1
  unfolding token take_code
  token-IsSaved now secret form s h fresh =
      elim (Bool-cases (form.grant_type == "authorization_code")) [
        | inl e ↦ rw e (taken-IsSaved now form secret s (get s.codes form.code) h fresh)
        | inr e ↦ rw e h
      ]

  -- The states of a running store: opened on some file, then changed by its operations. A new
  -- token's secret is never that of a token in memory.
  pub data Running : Inner → Type 0 where
    opened :
        {s : Inner} (file : EventFile OauthEvent) (binding : String) (faults : List Outcome)
        → open_store file binding faults ≡ ok s
        → Running s
    after_register :
        {s : Inner} (id : String) (uris : List String) → Running s → Running (register id uris s).1
    after_code :
        {s : Inner} (code : String) (c : AuthCode) → Running s → Running (put_code code c s)
    after_token :
        {s : Inner} (now : ℕ) (secret : String) (form : TokenForm)
        → Running s
        → get s.tokens secret ≡ none
        → Running (token pkce_s256 now secret form s).1

  Running-IsSaved : (s : Inner) → Running s → IsSaved s
  unfolding register put_code
  Running-IsSaved s (opened file binding faults e) =
      subst (IfOpened IsSaved) e (open_store-IsSaved file binding faults)
  Running-IsSaved _ (after_register {s} id uris r) =
      let c : Client = record { redirect_uris = uris } in
      registered-IsSaved id c (log (client_registered id c) s.faults s)
        (logged-IsSaved (client_registered id c) s.faults s tt (Running-IsSaved s r))
  Running-IsSaved _ (after_code {s} code c r) = Running-IsSaved s r
  Running-IsSaved _ (after_token {s} now secret form r fresh) =
      token-IsSaved now secret form s (Running-IsSaved s r) fresh

  -- A token that a running store accepts for a resource is accepted for it after a restart on the
  -- same file with the same binding, and this restart succeeds unless the repair of the file cannot be
  -- written, whatever appends and syncs failed on the way, by leaving nothing, a part of an event, or an event without its line end. The file has
  -- no spoiled line: no append came behind what a failed one left. The secrets of new tokens are
  -- fresh: never that of a token in memory.
  pub Running-token_valid :
      (s : Inner) (t resource : String) (faults : List Outcome)
      → Running s
      → IsWhole s.file.lines
      → token_valid t resource s ≡ true
      → IsAccepted t resource (open_store s.file s.binding faults)
  unfolding open_store
  Running-token_valid s t resource faults r w h =
      let saved = Running-IsSaved s r in
      let lines = repaired_lines s.file.lines s.file.tail in
      let mended =
        repaired_lines-InFile s.tokens s.file.lines s.file.tail w (saved.in_lines w)
          saved.in_tail in
      subst
        (λ x.
          IsAccepted t resource
            (opened_with (record { lines = lines; tail = clean }) s.binding faults x))
        (sym (replayed-whole lines mended.0))
        (versioned_accepts lines s.binding faults t resource (
          entry_valid-found (get s.tokens t) (get (replay_tokens [] (events lines)) t) s.binding
            resource (mended.1 t) (sym (token_valid-entry t resource s) ∙ h)))
