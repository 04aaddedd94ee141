-- ===== src/Oauth/Store.antt =====
-- slopd-mcp/src/oauth.rs: `OAuthStore` and the `token` handler. The clock, the random secret and
-- the new client id are arguments of a call; `pkce_s256`, which hashes with the `sha2` crate, is a
-- parameter. `faults` holds what each coming append and sync does. A repair that fails makes the
-- opening fail, and is left out.
use slopd.Base.{
  ℕ, String, Bool, true, false, ◌&&◌, Option, none, some, List, [], ◌∷◌, Map, get, insert,
  remove_key, string_eq, Result, ok, err, is_none_or, leb, ◌==◌, if◌then◌else◌,
}
use slopd.Oauth.File.{EventFile, Line, Outcome, works, is_works, written, repaired, replayed}

pub record Client : Type 0 where
  pub redirect_uris : List String

pub record AuthCode : Type 0 where
  pub client_id : String
  pub redirect_uri : String
  pub challenge : String
  pub resource : Option String
  pub expires : ℕ

pub record AccessToken : Type 0 where
  pub binding : String
  pub resource : Option String

pub data OauthEvent : Type 0 where
  version : ℕ → OauthEvent
  client_registered : String → Client → OauthEvent
  token_issued : String → AccessToken → OauthEvent

pub record Inner : Type 0 where
  pub clients : Map String Client
  pub codes : Map String AuthCode
  pub tokens : Map String AccessToken
  pub binding : String
  pub file : EventFile OauthEvent
  pub faults : List Outcome

abbrev public_client_id : String
public_client_id = "slopd-mcp"

-- The closure of `replay`.
unfoldable pub replay_clients : Map String Client → List OauthEvent → Map String Client
replay_clients m [] = m
replay_clients m (version n ∷ es) = replay_clients m es
replay_clients m (client_registered id c ∷ es) = replay_clients (insert id c m) es
replay_clients m (token_issued t a ∷ es) = replay_clients m es

unfoldable pub replay_tokens : Map String AccessToken → List OauthEvent → Map String AccessToken
replay_tokens m [] = m
replay_tokens m (version n ∷ es) = replay_tokens m es
replay_tokens m (client_registered id c ∷ es) = replay_tokens m es
replay_tokens m (token_issued t a ∷ es) = replay_tokens (insert t a m) es

abbrev pub synced : Bool → List Outcome → Inner → Bool × Inner
synced false fs s = (false, record s { faults = fs })
synced true [] s = (true, record s { faults = [] })
synced true (sync ∷ fs) s = (is_works sync, record s { faults = fs })

-- `append` and `sync_data`: whether both succeeded.
abbrev pub log : OauthEvent → List Outcome → Inner → Bool × Inner
log e [] s = (true, record s { file = written works e s.file })
log e (o ∷ fs) s = synced (is_works o) fs (record s { file = written o e s.file })

-- The store of a file with these events.
abbrev pub loaded : List OauthEvent → EventFile OauthEvent → String → List Outcome → Inner
loaded es file binding faults = record {
  clients = replay_clients ((public_client_id, record { redirect_uris = [] }) ∷ []) es;
  codes = [];
  tokens = replay_tokens [] es;
  binding = binding;
  file = file;
  faults = faults;
}

abbrev pub if_logged : Bool × Inner → Result (Unit {0}) Inner
if_logged (true, s) = ok s
if_logged (false, s) = err tt

-- A new file gets its version.
abbrev pub versioned : List (Line OauthEvent) → Inner → Result (Unit {0}) Inner
versioned [] s = if_logged (log (version 1) s.faults s)
versioned (l ∷ ls) s = ok s

abbrev pub opened_with :
    EventFile OauthEvent
    → String
    → List Outcome
    → Result (Unit {0}) (List OauthEvent)
    → Result (Unit {0}) Inner
opened_with file binding faults (err e) = err e
opened_with file binding faults (ok es) = versioned file.lines (loaded es file binding faults)

-- `jsonl::open` repairs the file, then it is replayed.
unfoldable pub open_store : EventFile OauthEvent → String → List Outcome → Result (Unit {0}) Inner
unfolding replay_clients replay_tokens repaired replayed
open_store file binding faults =
    let mended = repaired file in opened_with mended binding faults (replayed mended.lines)

abbrev pub registered : String → Client → Bool × Inner → Result (Unit {0}) String × Inner
registered id c (true, s) = (ok id, record s { clients = insert id c s.clients })
registered id c (false, s) = (err tt, s)

unfoldable pub register : (id : String) → List String → Inner → Result (Unit {0}) String × Inner
register id uris s =
    let c : Client = record { redirect_uris = uris } in
    registered id c (log (client_registered id c) s.faults s)

unfoldable pub put_code : String → AuthCode → Inner → Inner
put_code code issued s = record s { codes = insert code issued s.codes }

-- A code is removed whether or not it has expired.
abbrev pub unexpired : ℕ → AuthCode → Option AuthCode
unexpired now issued = if leb issued.expires now then none else some issued

unfoldable pub take_code : ℕ → String → Inner → Option AuthCode × Inner
take_code now code s = elim (get s.codes code) [
  | none ↦ (none, s)
  | some issued ↦ (unexpired now issued, record s { codes = remove_key code s.codes })
]

abbrev pub issued : String → AccessToken → Bool × Inner → Bool × Inner
issued token a (true, s) = (true, record s { tokens = insert token a s.tokens })
issued token a (false, s) = (false, s)

unfoldable pub put_token : String → Option String → Inner → Bool × Inner
put_token token resource s =
    let access : AccessToken = record { binding = s.binding; resource = resource } in
    issued token access (log (token_issued token access) s.faults s)

unfoldable pub token_valid : String → String → Inner → Bool
token_valid token resource s = elim (get s.tokens token) [
  | none ↦ false
  | some a ↦ a.binding == s.binding && is_none_or a.resource (λ r. r == resource)
]

pub record TokenForm : Type 0 where
  pub grant_type : String
  pub code : String
  pub redirect_uri : String
  pub client_id : String
  pub code_verifier : String
  pub resource : String

pub data TokenError : Type 0 where
  unsupported_grant_type invalid_grant storage_error : TokenError

abbrev pub answer : String → Bool × Inner → Result TokenError String × Inner
answer secret (true, s) = (ok secret, s)
answer secret (false, s) = (err storage_error, s)

module _ (pkce_s256 : String → String) where
  -- The tests of an exchange on the code that was taken.
  unfoldable pub allows : AuthCode → TokenForm → Bool
  allows c form =
      c.client_id == form.client_id
      && c.redirect_uri == form.redirect_uri
      && is_none_or c.resource (λ r. r == form.resource)
      && pkce_s256 form.code_verifier == c.challenge

  abbrev pub exchange :
      TokenForm → String → Option AuthCode × Inner → Result TokenError String × Inner
  exchange form secret (none, s) = (err invalid_grant, s)
  exchange form secret (some c, s) =
      if allows c form
      then answer secret (put_token secret c.resource s)
      else (err invalid_grant, s)

  unfoldable pub token :
      (now : ℕ) → (random_secret : String) → TokenForm → Inner → Result TokenError String × Inner
  unfolding allows take_code put_token
  token now secret form s =
      if form.grant_type == "authorization_code"
      then exchange form secret (take_code now form.code s)
      else (err unsupported_grant_type, s)
