-- ===== src/Pane/Agent.antt =====
-- libslop/src/lib.rs: `Backend`, the agent program that a pane runs.
use slopd.Base.{String, ◌≡◌, ◌↔◌, Bool, true, false, arith}

pub data Backend : Type 0 where
  claude opencode codex grok : Backend

unfoldable pub canonical_executable : Backend → String
canonical_executable claude = "claude"
canonical_executable opencode = "opencode"
canonical_executable codex = "codex"
canonical_executable grok = "grok"

-- The derived `PartialEq`.
unfoldable pub backend_eq : Backend → Backend → Bool
backend_eq claude claude = true
backend_eq opencode opencode = true
backend_eq codex codex = true
backend_eq grok grok = true
backend_eq _ _ = false

unfoldable pub uses_injected_hooks : Backend → Bool
uses_injected_hooks opencode = false
uses_injected_hooks _ = true

pub backend_eq_iff : (a b : Backend) → (backend_eq a b ≡ true) ↔ (a ≡ b)
unfolding backend_eq
backend_eq_iff a b = ground arith
