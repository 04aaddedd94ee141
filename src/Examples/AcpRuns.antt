-- ===== src/Examples/AcpRuns.antt =====
-- Sessions of the ACP adapter at concrete requests.
use Prim.Native.String.{◌++◌ as join}
use slopd.Base.{
  ◌⊎◌, ℕ, String, true, false, none, some, List, [], ◌∷◌, ◌++◌, Map, ok, err, All, get,
  strip_prefix, ◌≡◌, ◌≢◌, ◌≤◌, refl, arith,
}
use slopd.Base.Utf8.{as_bytes}
use slopd.Pane.Agent.{claude}
use slopd.Acp.Tags.{acp_tag, acp_cwd_tag_prefix, hex_encode, decoded_tag}
use slopd.Acp.TagNames.{decoded_tag-hex_encode}
use slopd.Acp.Session.{Session, Adapter, live_count, panicked}
use slopd.Acp.Eviction.{Outcome, EvictionReply, evict_lru_inactive, trim_recovered_panes}
use slopd.Acp.Residency.{ResidentReplies}
use slopd.Acp.Requests.{ignore}
use slopd.Acp.Catalog.{IsDistinct}
use slopd.Acp.Victims.{IsVictim, IsLater}
use slopd.Acp.Room.{Keeps, Evicted}
use slopd.Acp.Trim.{IsBounded, trim_recovered_panes-bounded, evict_lru_inactive-least}
use slopd.Acp.Serve.{Request, new, begin, finish, close, take_request, serve}
use slopd.Acp.Served.{serve-IsBounded}

other_tag : strip_prefix acp_cwd_tag_prefix acp_tag ≡ none
unfolding strip_prefix
other_tag = refl

decoded_tag-hex_encode_example :
    decoded_tag
      ((acp_tag ∷ []) ++ join acp_cwd_tag_prefix (hex_encode (as_bytes "/tmp/é")) ∷ [])
      acp_cwd_tag_prefix
    ≡ some "/tmp/é"
decoded_tag-hex_encode_example =
    decoded_tag-hex_encode acp_cwd_tag_prefix "/tmp/é" (acp_tag ∷ []) [] (other_tag, tt)

abbrev a_session : String → ℕ → Session
a_session pane last_used = record {
  pane_id = some pane;
  grave_id = none;
  backend = some claude;
  native_session_id = none;
  cwd = "/w";
  start_directory = "/w";
  system_prompt = none;
  system_prompt_delivered = false;
  pending_resume_history = false;
  active_turn = none;
  last_used = last_used;
  last_touched_at = 0;
  title = none;
}

abbrev two_sessions : Map String Session
two_sessions = ("a", a_session "%1" 8) ∷ ("b", a_session "%2" 5) ∷ []

abbrev over_limit : Adapter
over_limit = record { max_sessions = 1; sessions = two_sessions; next_activity_id = 9 }

abbrev a_reply : EvictionReply
a_reply = record { killed = true; is_gone = false; graves = some [] }

two_sessions-IsDistinct : IsDistinct two_sessions
unfolding get
two_sessions-IsDistinct = (refl, (refl, tt))

two_live : live_count over_limit.sessions ≡ 2
unfolding live_count
two_live = refl

trim_recovered_panes-bounded_example :
    (o : Outcome) × (trim_recovered_panes 3 [] a_reply over_limit ≡ some o)
    × ((o.0 ≢ ok tt) ⊎ (live_count o.1.sessions ≤ 1))
    × (o.0 ≢ err panicked)
    × Keeps over_limit o.1
trim_recovered_panes-bounded_example =
    trim_recovered_panes-bounded 3 [] a_reply over_limit two_sessions-IsDistinct
      (omega (arith, two_live))

evicts_b : (evict_lru_inactive a_reply over_limit).0 ≡ ok tt
unfolding evict_lru_inactive
evicts_b = refl

evict_lru_inactive-least_example :
    (id : String) × (s : Session) × IsVictim over_limit.sessions id s
    × All (IsLater s.last_used) over_limit.sessions
    × Evicted id over_limit (evict_lru_inactive a_reply over_limit).1
evict_lru_inactive-least_example =
    evict_lru_inactive-least a_reply over_limit two_sessions-IsDistinct evicts_b

abbrev within_limit : Adapter
within_limit = record over_limit { max_sessions = 2 }

within_limit-IsBounded : IsBounded within_limit
within_limit-IsBounded = record {
  distinct = two_sessions-IsDistinct;
  bound = omega (arith, two_live);
}

abbrev replies : ResidentReplies
replies = record {
  panes_before = none;
  panes = some [];
  eviction = a_reply;
  revived = none;
  started = some (record { pane_id = "%3"; backend = claude; native_session_id = none });
  tagged = true;
}

abbrev a_request : Request
a_request =
    new (record { system_prompt_mode = ignore; working_directory = none }) replies
      (record { cwd = "/w"; has_mcp_servers = false; system_prompt = none }) "c" 100

abbrev requests : List Request
requests =
    a_request
    ∷ begin replies 7 101 "c"
    ∷ finish 7 false false true "c"
    ∷ close (some []) true (some []) "c"
    ∷ []

serve-IsBounded_example : IsBounded (serve requests within_limit)
serve-IsBounded_example = serve-IsBounded requests within_limit within_limit-IsBounded

opened : live_count (take_request a_request within_limit).sessions ≡ 1
unfolding take_request live_count
opened = refl
