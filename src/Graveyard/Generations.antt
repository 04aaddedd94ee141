-- ===== src/Graveyard/Generations.antt =====
-- slopd/src/journal.rs: `read_generations`, `select_generations` and the restore points. A directory
-- lists its files in any order.
use Prim.Native.String.{◌++◌ as join}
use slopd.Base.{
  ℕ, zero, suc, ◌+◌, ◌-◌, String, Bool, true, false, not, ◌&&◌, ◌||◌, Option, none, some, List, [],
  ◌∷◌, ◌++◌, Result, ok, err, ltb, str_lt, strip_prefix, and_then, contains, option_beq, sort_by,
  ◌==◌, if◌then◌else◌,
}
use slopd.Base.Decimal.{parse_u64}
use slopd.Pane.Info.{PaneInfo}
use slopd.Journal.Event.{GenerationKey, generation_eq, generation_key_eq}
use slopd.Journal.Replay.{GenerationState, read_generation}
use slopd.Journal.Io.{
  Journal, JournalError, generation_missing, no_such_generation, Io, ◌>>=◌, ◌>>◌, pure, sync_data,
}
use slopd.Journal.Directory.{Dir}

-- The derived order of `Option`: `none` first.
abbrev option_lt {ℓ} : {A : Type ℓ} → (A → A → Bool) → Option A → Option A → Bool
option_lt lt _ none = false
option_lt lt none (some b) = true
option_lt lt (some a) (some b) = lt a b

unfoldable pub tmux_session_number : String → Option ℕ
tmux_session_number id = and_then (strip_prefix "$" id) parse_u64

unfoldable pub display : GenerationKey → String
display key = join key.tmux_boot_id (join ":" key.tmux_session_id)

-- The order of two sessions of one tmux server: by number, then by text.
unfoldable pub session_before : String → String → Bool
unfolding tmux_session_number
session_before a b =
    let m = tmux_session_number a in
    let n = tmux_session_number b in
    if option_lt ltb m n then true else if option_lt ltb n m then false else str_lt a b

abbrev by_display : Option GenerationKey → Option GenerationKey → Bool
by_display none none = false
by_display none (some b) = true
by_display (some a) none = false
by_display (some a) (some b) = str_lt (display a) (display b)

unfoldable pub key_before : Option GenerationKey → Option GenerationKey → Bool
unfolding session_before display
key_before none b = by_display none b
key_before (some a) none = by_display (some a) none
key_before (some a) (some b) =
    if a.tmux_boot_id == b.tmux_boot_id
    then session_before a.tmux_session_id b.tmux_session_id
    else by_display (some a) (some b)

unfoldable pub generation_before : GenerationState → GenerationState → Bool
unfolding key_before
generation_before a b =
    if ltb a.started_at b.started_at
    then true
    else if ltb b.started_at a.started_at
    then false
    else key_before a.key b.key

-- The files in the directory's order.
unfoldable pub read_files : Dir → List GenerationState
read_files [] = []
read_files ((key, es) ∷ dir) = read_generation es ∷ read_files dir

unfoldable pub read_generations : Dir → List GenerationState
unfolding read_files
read_generations dir = sort_by generation_before (read_files dir)

-- `iter().position(|g| g.key.as_ref() == Some(current))`
unfoldable pub position_of : GenerationKey → List GenerationState → Option ℕ
position_of current [] = none
position_of current (g ∷ gs) =
    let rest = position_of current gs in
    if option_beq g.key (some current)
    then some 0
    else elim rest [ none ↦ none | some i ↦ some (suc i) ]

-- An `i32`; `negsuc n` is -(n + 1).
pub data ℤ : Type 0 where
  pos : ℕ → ℤ
  negsuc : ℕ → ℤ

abbrev nth : List GenerationState → ℕ → Result JournalError (List GenerationState)
nth [] i = err no_such_generation
nth (g ∷ gs) zero = ok (g ∷ [])
nth (g ∷ gs) (suc i) = nth gs i

-- `current_index + offset`, and the two bounds.
abbrev at_offset : List GenerationState → ℕ → ℤ → Result JournalError (List GenerationState)
at_offset gs i (pos n) = nth gs (i + n)
at_offset gs i (negsuc n) = if ltb i (n + 1) then err no_such_generation else nth gs (i - (n + 1))

unfoldable pub select_generations :
    List GenerationState → GenerationKey → Option ℤ → Result JournalError (List GenerationState)
unfolding position_of
select_generations gs current none = ok gs
select_generations gs current (some offset) = elim (position_of current gs) [
  | none ↦ err generation_missing
  | some i ↦ at_offset gs i offset
]

-- Every source that some generation has resolved.
unfoldable pub all_resolved : List GenerationState → List GenerationKey
all_resolved [] = []
all_resolved (g ∷ gs) = g.resolved_sources ++ all_resolved gs

abbrev pub is_nil {ℓ} : {A : Type ℓ} → List A → Bool
is_nil [] = true
is_nil (x ∷ xs) = false

-- The `continue`s of the loop: whether a generation with this key is passed over.
abbrev pub skipped :
    (include_current unresolved_only : Bool)
    → GenerationKey
    → List GenerationKey
    → GenerationKey
    → List PaneInfo
    → Bool
skipped include_current unresolved_only current resolved key cp =
    (not include_current && generation_eq key current)
    || (unresolved_only && contains resolved key)
    || (unresolved_only && is_nil cp)

abbrev pub candidate :
    Bool
    → Bool
    → GenerationKey
    → List GenerationKey
    → GenerationState
    → Option (GenerationKey × List PaneInfo)
candidate ic uo current resolved g = elim g.key [
  | none ↦ none
  | some key ↦
      if skipped ic uo current resolved key g.checkpoint
      then none
      else if g.has_checkpoint
      then some (key, g.checkpoint)
      else none
]

-- The loop from the newest generation back.
unfoldable pub newest :
    (GenerationState → Option (GenerationKey × List PaneInfo))
    → List GenerationState
    → Option (GenerationKey × List PaneInfo)
newest f [] = none
newest f (g ∷ gs) = let rest = newest f gs in elim rest [ some found ↦ some found | none ↦ f g ]

-- The generation that the loop returns.
unfoldable pub latest_of : Bool → Bool → Journal → Option (GenerationKey × List PaneInfo)
unfolding read_generations newest all_resolved
latest_of include_current unresolved_only j =
    let gs = read_generations j.dir in
    newest (candidate include_current unresolved_only j.generation (all_resolved gs)) gs

unfoldable pub latest_checkpoint : Bool → Bool → Io (Option (GenerationKey × List PaneInfo))
unfolding latest_of
latest_checkpoint include_current unresolved_only = do
  sync_data
  (λ j. (ok (latest_of include_current unresolved_only j), j))

unfoldable pub pending_restore : Io (Option (GenerationKey × List PaneInfo))
pending_restore = latest_checkpoint false true

abbrev pub or_current :
    Option (GenerationKey × List PaneInfo) → Io (Option (GenerationKey × List PaneInfo))
or_current (some source) = pure (some source)
or_current none = latest_checkpoint true false

unfoldable pub manual_restore_source : Io (Option (GenerationKey × List PaneInfo))
unfolding pending_restore
manual_restore_source = do pending ← pending_restore; or_current pending
