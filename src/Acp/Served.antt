-- ===== src/Acp/Served.antt =====
-- slopd-acp/src/adapter.rs: no sequence of requests takes the adapter over its limit of live panes.
use slopd.Base.{
  ℕ, String, Bool, Option, none, some, List, [], ◌∷◌, get, is_none, and_then, find, string_eq,
  arith, inl, inr, Bool-cases,
}
use slopd.Acp.Session.{Session, Adapter, modify}
use slopd.Acp.Eviction.{capture_latest_grave, is_grave_of}
use slopd.Acp.Residency.{ResidentReplies, ensure_session_resident}
use slopd.Acp.Requests.{
  AdapterConfig, SessionNew, session_new, session_resume, validate_session_cwd_and_mcp, prompt_by,
  real_prompt,
}
use slopd.Acp.Closing.{
  session_close, session_delete, delete_found, delete_resident, mark_gone, cancelled,
  mark_pane_gone,
}
use slopd.Acp.Turns.{begin_turn, finish_turn, drop_stale_pane, begin_found, end_turn}
use slopd.Acp.Trim.{IsBounded, reconcile-IsBounded}
use slopd.Acp.Bounded.{
  modify-IsBounded, then_do-IsBounded, ensure_session_resident-IsBounded, open_with-IsBounded,
}
use slopd.Acp.Serve.{
  Request, new, resume, close, delete, begin, finish, drop_stale, reconcile, take_request, serve,
}
use slopd.Acp.Kept.{
  begin_found-IsBounded, capture_grave-IsBounded, close_found-IsBounded, delete_resident-IsBounded,
  end_turn-live, mark_gone-live, resume_found-IsBounded,
}

delete_found-IsBounded :
    (r : ResidentReplies) (tombstone killed : Bool) (id : String) (o : Option Session) (a : Adapter)
    → IsBounded a
    → IsBounded (delete_found r tombstone killed id o a).1
delete_found-IsBounded r tombstone killed id none a b = b
delete_found-IsBounded r tombstone killed id (some s) a b =
    let c = record a { sessions = modify id cancelled a.sessions } in
    let d =
      ensure_session_resident-IsBounded r id c
        (modify-IsBounded id cancelled a (λ s. omega arith) b) in
    then_do-IsBounded (ensure_session_resident r id c) (delete_resident tombstone killed id) d
      (λ _. delete_resident-IsBounded tombstone killed id (ensure_session_resident r id c).1 d)

session_new-IsBounded :
    (config : AdapterConfig) (r : ResidentReplies) (params : SessionNew) (id : String) (now : ℕ)
    (a : Adapter)
    → IsBounded a
    → IsBounded (session_new config r params id now a).1
unfolding session_new
session_new-IsBounded config r params id now a b =
    elim (Bool-cases (validate_session_cwd_and_mcp params.cwd params.has_mcp_servers)) [
      | inl e ↦ rw e (
          open_with-IsBounded config r params id now
            (prompt_by config.system_prompt_mode (real_prompt params.system_prompt)) a b)
      | inr e ↦ rw e b
    ]

session_resume-IsBounded :
    (r : ResidentReplies) (id cwd : String) (has_mcp_servers : Bool) (now : ℕ) (a : Adapter)
    → IsBounded a
    → IsBounded (session_resume r id cwd has_mcp_servers now a).1
unfolding session_resume
session_resume-IsBounded r id cwd has_mcp_servers now a b =
    elim (Bool-cases (validate_session_cwd_and_mcp cwd has_mcp_servers)) [
      | inl e ↦ rw e (resume_found-IsBounded r id cwd now (get a.sessions id) a b)
      | inr e ↦ rw e b
    ]

begin_turn-IsBounded :
    (r : ResidentReplies) (turn now : ℕ) (id : String) (a : Adapter)
    → IsBounded a
    → IsBounded (begin_turn r turn now id a).1
unfolding begin_turn
begin_turn-IsBounded r turn now id a b = elim (Bool-cases (is_none (get a.sessions id))) [
  | inl e ↦ rw e b
  | inr e ↦
      let c = ensure_session_resident-IsBounded r id a b in
      let d = (ensure_session_resident r id a).1 in
      rw e (
        then_do-IsBounded (ensure_session_resident r id a)
          (λ b. begin_found turn now id (get b.sessions id) b) c
          (λ _. begin_found-IsBounded turn now id (get d.sessions id) d c))
]

take_request-IsBounded :
    (request : Request) (a : Adapter) → IsBounded a → IsBounded (take_request request a)
unfolding take_request session_close session_delete finish_turn drop_stale_pane mark_pane_gone
    capture_latest_grave
take_request-IsBounded (new config r params id now) a b =
    session_new-IsBounded config r params id now a b
take_request-IsBounded (resume r id cwd mcp now) a b = session_resume-IsBounded r id cwd mcp now a b
take_request-IsBounded (close panes killed graves id) a b =
    close_found-IsBounded panes killed graves id (get a.sessions id) a b
take_request-IsBounded (delete r tombstone killed id) a b =
    delete_found-IsBounded r tombstone killed id (get a.sessions id) a b
take_request-IsBounded (begin r turn now id) a b = begin_turn-IsBounded r turn now id a b
take_request-IsBounded (finish turn included discard accepted id) a b =
    modify-IsBounded id (end_turn turn included discard accepted) a
      (end_turn-live turn included discard accepted) b
take_request-IsBounded (drop_stale graves id pane) a b =
    capture_grave-IsBounded (and_then graves (find (is_grave_of id))) id _
      (modify-IsBounded id (mark_gone pane) a (mark_gone-live pane) b)
take_request-IsBounded (reconcile panes) a b = reconcile-IsBounded panes a b

-- An adapter whose session ids differ pairwise and whose live panes are no more than `max_sessions` still
-- has both after any sequence of requests, whatever the daemon answers to each: `session/new`,
-- `session/resume`, `session/close`, `session/delete`, the start and the end of a turn, giving up a stale
-- pane, and a reconciliation with the panes that the daemon lists.
pub serve-IsBounded :
    (requests : List Request) (a : Adapter) → IsBounded a → IsBounded (serve requests a)
unfolding serve
serve-IsBounded [] a b = b
serve-IsBounded (request ∷ requests) a b =
    serve-IsBounded requests (take_request request a) (take_request-IsBounded request a b)
