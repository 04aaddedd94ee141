-- ===== src/Examples/OauthRuns.antt =====
-- The token store at concrete exchanges.
use slopd.Base.{
  String, true, none, some, List, [], ◌∷◌, ◌≡◌, refl, ok, err, get, insert, remove_key, string_eq,
}
use slopd.Oauth.Store.{
  AuthCode, OauthEvent, version, Inner, loaded, register, replay_clients, open_store, replay_tokens,
  put_code, take_code, put_token, token_valid, TokenForm, invalid_grant, allows, token,
}
use slopd.Oauth.File.{
  EventFile, Outcome, whole, clean, part, works, fails, tears, IsWhole, repaired, replayed,
  drop_spoiled,
}
use slopd.Oauth.Tokens.{IsGranted, token-IsGranted}
use slopd.Oauth.Saved.{
  Running, opened, after_register, after_code, after_token, IsAccepted, Running-token_valid,
}
use slopd.Oauth.Once.{token-once}

-- A stand-in for the hash.
abbrev plain : String → String
plain v = v

abbrev a_code : AuthCode
a_code = record {
  client_id = "slopd-mcp";
  redirect_uri = "http://localhost/cb";
  challenge = "verifier";
  resource = some "mcp";
  expires = 300;
}

abbrev a_form : TokenForm
a_form = record {
  grant_type = "authorization_code";
  code = "code";
  redirect_uri = "http://localhost/cb";
  client_id = "slopd-mcp";
  code_verifier = "verifier";
  resource = "mcp";
}

abbrev a_file : EventFile OauthEvent
a_file = record { lines = whole (version 1) ∷ []; tail = clean }

-- The third append will be cut.
abbrev a_future : List Outcome
a_future = works ∷ works ∷ tears ∷ []

abbrev opened_store : Inner
opened_store = loaded (version 1 ∷ []) a_file "binding" a_future

store_opens : open_store a_file "binding" a_future ≡ ok opened_store
unfolding open_store repaired replayed replay_tokens replay_clients drop_spoiled
store_opens = refl

abbrev with_code : Inner
with_code = put_code "code" a_code opened_store

exchanged : (token plain 10 "secret" a_form with_code).0 ≡ ok "secret"
unfolding token take_code put_token allows put_code open_store insert remove_key get
exchanged = refl

token-IsGranted_example : IsGranted plain 10 a_form with_code
token-IsGranted_example = token-IsGranted plain 10 "secret" "secret" a_form with_code exchanged

token-once_example :
    (token plain 20 "secret2" a_form (token plain 10 "secret" a_form with_code).1).0
    ≡ err invalid_grant
token-once_example =
    token-once plain 10 20 "secret" "secret2" a_form a_form with_code refl refl refl

abbrev with_token : Inner
with_token = (token plain 10 "secret" a_form with_code).1

-- A registration was cut after some bytes.
abbrev after_cut : Inner
after_cut = (register "client" [] with_token).1

no_secret : get with_code.tokens "secret" ≡ none
unfolding put_code replay_tokens get
no_secret = refl

after_cut-Running : Running plain after_cut
after_cut-Running = after_register "client" [] (
    after_token 10 "secret" a_form
      (after_code "code" a_code (opened a_file "binding" a_future store_opens)) no_secret)

after_cut_part : after_cut.file.tail ≡ part
unfolding register token take_code put_token allows put_code insert remove_key get
after_cut_part = refl

after_cut-IsWhole : IsWhole after_cut.file.lines
unfolding register token take_code put_token allows put_code insert remove_key get
after_cut-IsWhole = tt

accepted : token_valid "secret" "mcp" after_cut ≡ true
unfolding token_valid register token take_code put_token allows put_code insert remove_key get
    replay_tokens
accepted = refl

Running-token_valid_example :
    IsAccepted "secret" "mcp" (open_store after_cut.file after_cut.binding (fails ∷ []))
Running-token_valid_example =
    Running-token_valid plain after_cut "secret" "mcp" (fails ∷ []) after_cut-Running
      after_cut-IsWhole accepted
