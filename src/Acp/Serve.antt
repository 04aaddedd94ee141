-- ===== src/Acp/Serve.antt =====
-- slopd-acp/src/adapter.rs: the adapter that takes one request after the other, each with the answers of
-- the daemon.
use slopd.Base.{ℕ, String, Bool, Option, List, [], ◌∷◌}
use slopd.Pane.Info.{PaneInfo, GraveEntry}
use slopd.Acp.Session.{Adapter}
use slopd.Acp.Eviction.{reconcile_live_sessions}
use slopd.Acp.Residency.{ResidentReplies}
use slopd.Acp.Requests.{AdapterConfig, SessionNew, session_new, session_resume}
use slopd.Acp.Closing.{session_close, session_delete}
use slopd.Acp.Turns.{begin_turn, finish_turn, drop_stale_pane}

-- `begin` and `finish` are the two ends of a turn of `session/prompt`; `drop_stale` comes before its second
-- turn.
pub data Request : Type 0 where
  new : AdapterConfig → ResidentReplies → SessionNew → String → ℕ → Request
  resume : ResidentReplies → String → String → Bool → ℕ → Request
  close : Option (List PaneInfo) → Bool → Option (List GraveEntry) → String → Request
  delete : ResidentReplies → Bool → Bool → String → Request
  begin : ResidentReplies → ℕ → ℕ → String → Request
  finish : ℕ → Bool → Bool → Bool → String → Request
  drop_stale : Option (List GraveEntry) → String → String → Request
  reconcile : List PaneInfo → Request

unfoldable pub take_request : Request → Adapter → Adapter
unfolding session_new session_resume session_close session_delete begin_turn finish_turn
    drop_stale_pane reconcile_live_sessions
take_request (new config r params id now) a = (session_new config r params id now a).1
take_request (resume r id cwd has_mcp_servers now) a =
    (session_resume r id cwd has_mcp_servers now a).1
take_request (close panes killed graves id) a = (session_close panes killed graves id a).1
take_request (delete r tombstone killed id) a = (session_delete r tombstone killed id a).1
take_request (begin r turn now id) a = (begin_turn r turn now id a).1
take_request (finish turn included discard accepted id) a =
    finish_turn turn included discard accepted id a
take_request (drop_stale graves id pane) a = drop_stale_pane graves id pane a
take_request (reconcile panes) a = reconcile_live_sessions panes a

unfoldable pub serve : List Request → Adapter → Adapter
unfolding take_request
serve [] a = a
serve (request ∷ requests) a = serve requests (take_request request a)
