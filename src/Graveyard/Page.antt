-- ===== src/Graveyard/Page.antt =====
-- slopd/src/journal.rs: `graveyard_page` and its cursors.
use Prim.Native.String.{◌++◌ as join}
use slopd.Base.{
  ℕ, suc, String, Bool, true, false, not, ◌&&◌, ◌||◌, Option, none, some, List, [], ◌∷◌, ◌++◌, map,
  Map, get, insert, contains, string_eq, Result, ok, err, is_none, is_none_or, ltb, leb, nat_eq,
  str_lt, sort_by, filter, all, take, last, length, ◌==◌, if◌then◌else◌,
}
use slopd.Base.Decimal.{to_string, parse_u64, split_once}
use slopd.Pane.Agent.{backend_eq}
use slopd.Pane.Info.{GraveEntry, GraveyardFilter}
use slopd.Journal.Replay.{GenerationState}
use slopd.Journal.Io.{JournalError, bad_boot, invalid_cursor, Io, ◌>>◌, sync_data}
use slopd.Graveyard.Generations.{ℤ, pos, read_generations, select_generations}

unfoldable pub encode_graveyard_cursor : ℕ → String → String
encode_graveyard_cursor destroyed_at grave_id = join (to_string destroyed_at) (join ":" grave_id)

abbrev checked_id : ℕ → String → Result JournalError (ℕ × String)
checked_id at id = if id == "" then err invalid_cursor else ok (at, id)

abbrev parsed_cursor : Option ℕ → String → Result JournalError (ℕ × String)
parsed_cursor none id = err invalid_cursor
parsed_cursor (some at) id = checked_id at id

unfoldable pub decode_graveyard_cursor : String → Result JournalError (ℕ × String)
decode_graveyard_cursor cursor = elim (split_once b':' cursor) [
  | none ↦ err invalid_cursor
  | some (at, id) ↦ parsed_cursor (parse_u64 at) id
]

-- Newest first, and by id among those of one second.
unfoldable pub grave_before : GraveEntry → GraveEntry → Bool
grave_before a b =
    ltb b.destroyed_at a.destroyed_at
    || (nat_eq b.destroyed_at a.destroyed_at && str_lt b.grave_id a.grave_id)

-- The entries that come after a cursor.
unfoldable pub behind_cursor : ℕ → String → GraveEntry → Bool
behind_cursor destroyed_at grave_id e =
    ltb e.destroyed_at destroyed_at
    || (nat_eq e.destroyed_at destroyed_at && str_lt e.grave_id grave_id)

unfoldable pub filter_allows : GraveyardFilter → GraveEntry → Bool
filter_allows f e =
    is_none_or f.account (λ account. e.pane.account == account)
    && is_none_or f.backend (λ backend. backend_eq e.pane.backend backend)
    && all (contains e.pane.tags) f.tags_all
    && (not f.unrevived_only || is_none e.revived_at)
    && is_none_or f.destroyed_after (λ after. leb after e.destroyed_at)

-- `revived`: the last revival of each grave, over all generations.
unfoldable pub record_revivals :
    List (String × ℕ × String) → Map String (ℕ × String) → Map String (ℕ × String)
record_revivals [] m = m
record_revivals ((grave_id, at, pane_id) ∷ rs) m =
    record_revivals rs (insert grave_id (at, pane_id) m)

unfoldable pub all_revivals :
    List GenerationState → Map String (ℕ × String) → Map String (ℕ × String)
unfolding record_revivals
all_revivals [] m = m
all_revivals (g ∷ gs) m = all_revivals gs (record_revivals g.revivals m)

unfoldable pub mark_revived : Map String (ℕ × String) → GraveEntry → GraveEntry
mark_revived revived e = elim (get revived e.grave_id) [
  | none ↦ e
  | some (at, pane_id) ↦ record e { revived_at = some at; revived_as = some pane_id }
]

unfoldable pub all_graves : List GenerationState → List GraveEntry
all_graves [] = []
all_graves (g ∷ gs) = g.graves ++ all_graves gs

-- The graves of the selected generations, marked, sorted and filtered.
unfoldable pub listing :
    List GenerationState → List GenerationState → GraveyardFilter → List GraveEntry
unfolding all_graves all_revivals mark_revived
listing generations selected f =
    filter (filter_allows f) (
      sort_by grave_before (map (mark_revived (all_revivals generations [])) (all_graves selected)))

abbrev pub next_cursor : Bool → Option GraveEntry → Option String
next_cursor false e = none
next_cursor true none = none
next_cursor true (some e) = some (encode_graveyard_cursor e.destroyed_at e.grave_id)

-- `truncate`, and the cursor of the last entry if more follow.
unfoldable pub cut : ℕ → List GraveEntry → List GraveEntry × Option String
cut limit entries =
    (take limit entries, next_cursor (ltb limit (length entries)) (last (take limit entries)))

unfoldable pub page_of :
    List GraveEntry → ℕ → Option String → Result JournalError (List GraveEntry × Option String)
unfolding cut
page_of entries limit none = ok (cut limit entries)
page_of entries limit (some cursor) = elim (decode_graveyard_cursor cursor) [
  | err e ↦ err e
  | ok (at, id) ↦ ok (cut limit (filter (behind_cursor at id) entries))
]

abbrev is_positive : Option ℤ → Bool
is_positive (some (pos (suc n))) = true
is_positive _ = false

abbrev page_after :
    Result JournalError (List GenerationState)
    → List GenerationState
    → ℕ
    → GraveyardFilter
    → Option String
    → Result JournalError (List GraveEntry × Option String)
page_after (err e) generations limit f cursor = err e
page_after (ok selected) generations limit f cursor =
    page_of (listing generations selected f) limit cursor

unfoldable pub graveyard_page :
    Option ℤ → ℕ → GraveyardFilter → Option String → Io (List GraveEntry × Option String)
unfolding listing page_of
graveyard_page boot limit f cursor j =
    if is_positive boot
    then (err bad_boot, j)
    else (do
      sync_data
      (λ k.
          let generations = read_generations k.dir in
          (
            page_after (select_generations generations k.generation boot) generations limit f
                cursor,
            k,
          )))
        j
