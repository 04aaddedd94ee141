-- ===== src/Hooks.antt =====
-- slopd/src/main.rs: which tmux server and which session a hook belongs to.
use Prim.Native.String.{◌++◌ as join}
use text.Mathlib.TextLemmas.{nil-append, cons-append}
use slopd.Base.{
  ℕ, ◌≤◌, ◌<◌, String, Bool, true, false, not, ◌&&◌, ◌||◌, Option, none, some, and_then, is_some,
  leb, nat_eq, max_u32, rsplit_once, rsplit_once-last, ◌==◌, ◌≡◌, ◌≢◌, ap, ◌∙◌, arith, eq_iff,
  if◌then◌else◌,
}
use slopd.Base.Decimal.{to_string, parse_u64, parse_u64-to_string, rsplit_once-to_string}
use slopd.Pane.Agent.{Backend, codex, backend_eq, uses_injected_hooks}
use slopd.Json.Value.{Value, str_at}

abbrev within : ℕ → Option ℕ
within n = if leb n max_u32 then some n else none

-- `parse::<u32>()`
unfoldable pub parse_u32 : String → Option ℕ
parse_u32 s = and_then (parse_u64 s) within

abbrev pub server_of : String → ℕ → Option (String × ℕ)
server_of socket pid = if not (socket == "") && not (nat_eq pid 0) then some (socket, pid) else none

abbrev pub with_pid : String × String → Option (String × ℕ)
with_pid (socket, pid) = and_then (parse_u32 pid) (server_of socket)

abbrev pub with_session : String × String → Option (String × ℕ)
with_session (server, session) =
    and_then (parse_u32 session) (λ n. and_then (rsplit_once b',' server) with_pid)

unfoldable pub hook_tmux_server : String → Option (String × ℕ)
unfolding parse_u32
hook_tmux_server tmux = and_then (rsplit_once b',' tmux) with_session

unfoldable pub hook_transcript_path : Backend → String → Value → Option String
hook_transcript_path backend event payload =
    if backend_eq backend codex && event == "SubagentStart"
    then none
    else str_at payload "transcript_path"

abbrev same_session : Backend → String → Value → Option String → Option String → Bool
same_session backend event payload none hook = true
same_session backend event payload (some bound) none = true
same_session backend event payload (some bound) (some hook) =
    hook == bound
    || (event == "SessionStart" && is_some (hook_transcript_path backend event payload))

unfoldable pub hook_belongs_to_bound_session : Backend → Option String → String → Value → Bool
unfolding hook_transcript_path
hook_belongs_to_bound_session backend bound event payload =
    if not (uses_injected_hooks backend)
    then false
    else if not (backend_eq backend codex)
    then true
    else same_session backend event payload bound (str_at payload "session_id")

parse_u32-to_string : (n : ℕ) → n ≤ max_u32 → parse_u32 (to_string n) ≡ some n
unfolding parse_u32
parse_u32-to_string n h =
    ap (λ o. and_then o within) (parse_u64-to_string n (omega (arith, h))) ∙ ground (arith, h)

rsplit_number :
    (s : String) (n : ℕ)
    → rsplit_once b',' (join s (join "," (to_string n))) ≡ some (s, to_string n)
rsplit_number s n =
    ap (λ t. rsplit_once b',' (join s t))
      (cons-append "," "" (to_string n) ∙ ap (String.◌∷◌ ",") (nil-append (to_string n)))
    ∙ rsplit_once-last "," s (to_string n) (rsplit_once-to_string b',' n (omega arith))

-- The value of `$TMUX` is taken apart into the server that it names, also when the path of the socket
-- holds commas, for a path that is not empty, a process id from 1 and a session index, both `u32`s.
pub hook_tmux_server-join :
    (socket : String) (pid session : ℕ)
    → socket ≢ ""
    → 0 < pid
    → pid ≤ max_u32
    → session ≤ max_u32
    → hook_tmux_server
        (join (join socket (join "," (to_string pid))) (join "," (to_string session)))
      ≡ some (socket, pid)
unfolding hook_tmux_server
hook_tmux_server-join socket pid session named positive small fits =
    ap (λ o. and_then o with_session)
      (rsplit_number (join socket (join "," (to_string pid))) session)
    ∙ (ap
          (λ o.
            and_then o
              (λ n. and_then (rsplit_once b',' (join socket (join "," (to_string pid)))) with_pid))
          (parse_u32-to_string session fits)
        ∙ (ap (λ o. and_then o with_pid) (rsplit_number socket pid)
            ∙ (ap (λ o. and_then o (server_of socket)) (parse_u32-to_string pid small)
                ∙ ground (arith, eq_iff socket ""))))
