-- ===== src/Lib.antt =====
-- slopd runs coding agents in panes of a tmux session. The daemon (slopd) tracks the state of each
-- pane from hooks and transcripts, journals what is needed to restore panes and to find the dead
-- ones, and serves clients over a socket; slopd-mcp and slopd-acp are servers in front of it, and
-- libslop holds the shared types.
--
-- The modules and the code that they model:
--
-- Base: shared helpers. Tests and results, lists measured by native numbers, association lists
--   (a Rust map as a list in which a key stands once), texts, sorting, decimal numbers.
-- Pane: libslop/src/lib.rs, PaneState, PaneDetailedState, Backend, PaneInfo, GraveEntry and
--   GraveyardFilter; slopd/src/journal.rs, same_recovery_metadata and same_recovery_checkpoint.
-- Journal: slopd/src/journal.rs. Event has the keys and events; Replay is read_generation; Io has the
--   state (CurrentState and the directory of files) and the monad of operations that may fail; Writer
--   has open_at, switch_generation, checkpoint, record_destroyed, record_revived and resolve_restore.
--   Synced has the invariant between memory and file; Distinct, Directory, Recording, Durable, Keyed,
--   Opening, Switching and Unchanged are about single operations; Calls and History about arbitrary
--   sequences of calls between compactions, failures and restarts.
-- Graveyard: slopd/src/journal.rs. Generations has read_generations, select_generations and the restore
--   points; Page is graveyard_page with its cursors; Select is select_grave; Order and Cursor have the
--   order of the listing and the paging. Cursor also has the loop of scoped_graves of
--   slopd-acp/src/adapter.rs.
-- Compaction: slopd/src/journal.rs, compact and import_legacy; Reading reads the rewritten files.
-- Jsonl: libslop/src/jsonl.rs, repair, append and replay over bytes. Crash has the bytes of a file of
--   events, Recovery what they replay as.
-- Json: serde_json's values, and the payload paths of libslop/src/lib.rs.
-- Machine: slopd/src/main.rs. Reduce is reduce_pane_state, with Codex and Grok for the
--   transcript_state of slopd/src/codex.rs and slopd/src/grok.rs; Update is
--   set_pane_detailed_state_inner; Retry is BackoffPolicy, RetryState and schedule_auto_continue.
--   Changes and Backoff are about sequences of transitions and of failures.
-- Leases: slopd/src/main.rs. Tags has lease_tags and its readers, Registry the handlers of LeaseAcquire,
--   LeaseRenew, LeaseRelease and LeaseAttach, Reclaim the expiry pass; TagValues is about reading the
--   tags, Ids and Superseded about the reachable registries.
-- Accounts: libslop/src/lib.rs, Backend::resolve and resolve_account; slopd/src/main.rs,
--   resolve_restore_account. Fits and Restored relate executables and backends.
-- Oauth: slopd-mcp/src/oauth.rs, OAuthStore and the token endpoint in Store; File has append, repair and
--   replay of libslop/src/jsonl.rs over the lines of its file, with what a cut append leaves; Tokens,
--   Once, Logged and Saved are about exchanges and restarts.
-- Rewind: slopd/src/grok.rs, filter_rewind_records. Branch has the conversation as turns.
-- Resume: slopd/src/main.rs, extract_resume_target and strip_resume_flags.
-- Hooks: slopd/src/main.rs, hook_tmux_server, hook_transcript_path and hook_belongs_to_bound_session.
-- Settings: libslop/src/lib.rs, inject_hook_events and remove_hook_events. Command has the tests on a hook's
--   command, Inject the operations; Settled, Idempotent, Foreign and Removed are about injecting again
--   and about the entries of other tools.
-- Opencode: slopd/src/opencode.rs, the meaning of events (Status, Events), and slopd/src/main.rs, the driver
--   of an opencode pane (Driver, Turn, Sse, Backstop). Agreement relates states, hooks and the test for a
--   working session; Subagents is about sequences of events and rounds.
-- Acp: slopd-acp/src/adapter.rs. Gate is TurnTranscriptGate; Tags has the tags of a pane; Session the
--   catalog; Eviction reconcile_live_sessions, evict_lru_inactive, trim_recovered_panes and
--   make_live_pane_room; Residency ensure_session_resident; Requests session_new and
--   session_resume; Closing session_close and session_delete; Turns the two ends of a turn in
--   session_prompt; Serve a sequence of them. TagNames is about the tags, Catalog about the catalog,
--   Victims, Room and Trim about evictions, Bounded, Kept and Served about sequences of requests.
--   Projection has the state of a Projection and assistant_text, Updates its updates, ToolUpdates its
--   tool_updates and finish_open_tools, Tools what is told of a tool, and Scan embedded_tool_calls and
--   first_js_argument. Emit is emit_record_updates and drain_transcript, RunTurn the loop of run_turn with
--   complete_turn. Client is an ACP client that keeps the
--   running tools and, but for two kinds of records, refuses the end of a tool that does not run; Quiet, Chaining, Following, Followed, Running, TurnEnds
--   and TurnSteps are about what it makes of a turn, Stops and Answered about why a turn ends, Deltas about the
--   parts of OpenCode.
-- Examples: concrete runs.
--
-- How the parts meet: the journal keeps the PaneInfo records of Pane; the graveyard and the compaction
-- read the files that the journal writes; the state machine reads hooks and transcripts as Json
-- values; leases are attached to panes through their tags; the driver of opencode uses the state
-- machine and the retries of Machine; a turn of the ACP adapter passes the transcript through its gate
-- and its projection, and its sessions find their panes and graves by the tags of Tags.
--
-- Conventions. A u64 is a natural number; where the code saturates, the model saturates at max_u64,
-- and a u32 attempt wraps. The file of the OAuth store is its lines with what stands behind the last line end, and
-- an append to it does all, nothing or a part of its write. A journal's file is the list of its events,
-- and an append to it is taken to happen or to fail as a whole: write_all may also leave a part of a
-- line, which Jsonl.Recovery is about. A journal's faults list tells for each coming write or sync
-- whether it fails; every operation runs for every such list. Ids and secrets that the code makes at
-- random are taken to be fresh where a theorem says so. The clock, fresh ids and random secrets
-- are arguments. Locks are not modelled: what the code does under one lock is one step; a driver's
-- handling of one event, or one round of its backstop, is one step too, with the answers of the
-- embedded server and of tmux as its arguments. The loop of scoped_graves runs on fuel, and one more
-- than the number of graves is enough; the loop of trim_recovered_panes as well, with one more than
-- the number of live panes; all other loops are structural. An operation of the ACP adapter gets the
-- answers of the daemon that it asks for as arguments, and a failed expect is an error of its own.
-- What the subscriptions and the client bring in a turn is a sequence of events in the order in which
-- the loop takes them.
--
-- Parameters: expand_path (the shellexpand crate on the environment), pkce_s256 (the sha2 crate), and
-- the JSON codec of Jsonl (serde_json), whose laws are the record IsLawful and, on a line that a
-- cut append leaves, RejectsJoined; Codecs of Acp/Tools
-- (json5, and the printing of serde_json).
--
-- Not modelled: process and tmux I/O, sockets and HTTP, file names and permissions, the reconcile
-- loop, the launch of backends, the HTTP clients of opencode, the rest of the ACP adapter (rescanning
-- of sessions, listing, steering, the sending of a prompt), the clients and the Android app.
pub mod Base
pub mod Pane
pub mod Journal
pub mod Graveyard
pub mod Compaction
pub mod Json
pub mod Machine
pub mod Leases
pub mod Accounts
pub mod Rewind
pub mod Resume
pub mod Oauth
pub mod Jsonl
pub mod Acp
pub mod Hooks
pub mod Settings
pub mod Opencode
pub mod Examples
