-- ===== src/Examples/GraveyardRuns.antt =====
-- The graveyard at concrete listings.
use slopd.Base.{
  String, false, none, some, List, [], ◌∷◌, ◌≡◌, ◌≢◌, refl, arith, eq_iff, IsChain, All, ok, filter,
  get, insert, length, sort_by, insert_by, take, drop, starts_with, str_lt, ◌⊎◌, ◌==◌,
}
use slopd.Pane.Info.{GraveEntry, no_filter}
use slopd.Journal.Replay.{GenerationState, empty_state}
use slopd.Graveyard.Page.{
  grave_before, all_graves, mark_revived, filter_allows, all_revivals, listing, cut, page_of,
}
use slopd.Graveyard.Order.{HaveDistinctIds, IsNewestFirst, listing-IsChain, listing-IsNewestFirst}
use slopd.Graveyard.Cursor.{IsPlain, page_of-next_cursor, scoped_graves, scoped_graves_complete}
use slopd.Graveyard.Select.{select_from, names_grave, select_from_unique}
use slopd.Examples.Data.{a_grave}

abbrev three_graves : List GraveEntry
three_graves = a_grave "g3" 9 ∷ a_grave "g2" 7 ∷ a_grave "g1" 7 ∷ []

three_graves-IsChain : IsChain grave_before three_graves
unfolding grave_before str_lt
three_graves-IsChain = ((refl, (refl, tt)), ((refl, tt), (tt, tt)))

not_empty : (id : String) → (id == "") ≡ false → id ≢ ""
not_empty id h e = ground (arith, eq_iff id "")

three_graves-IsPlain : All IsPlain three_graves
three_graves-IsPlain = (
  record { time = omega arith; id = not_empty "g3" refl },
  (
    record { time = omega arith; id = not_empty "g2" refl },
    (record { time = omega arith; id = not_empty "g1" refl }, tt),
  ),
)

scoped_graves_complete_example :
    scoped_graves 4 (λ e. e.grave_id == "g1") three_graves 1 none
    ≡ some (ok (filter (λ e. e.grave_id == "g1") three_graves))
scoped_graves_complete_example =
    scoped_graves_complete (λ e. e.grave_id == "g1") 1 three_graves three_graves-IsChain
      three_graves-IsPlain (omega arith) 4 (omega arith)

abbrev two_generations : List GenerationState
two_generations =
    record empty_state { graves = a_grave "g1" 7 ∷ a_grave "g3" 9 ∷ [] }
    ∷ record empty_state { graves = a_grave "g2" 7 ∷ []; revivals = ("g1", 12, "%4") ∷ [] }
    ∷ []

differ : (a b : String) → (a == b) ≡ false → a ≢ b
differ a b h e = ground (arith, eq_iff a b)

two_generations-HaveDistinctIds : HaveDistinctIds (all_graves two_generations)
unfolding all_graves
two_generations-HaveDistinctIds =
    ((differ "g1" "g3" refl, (differ "g1" "g2" refl, tt)), ((differ "g3" "g2" refl, tt), (tt, tt)))

abbrev listed : List GraveEntry
listed = listing two_generations two_generations no_filter

listed-IsPlain : All IsPlain listed
unfolding listing grave_before str_lt sort_by insert_by all_graves mark_revived filter_allows
    all_revivals get insert
listed-IsPlain = (
  record { time = omega arith; id = not_empty "g3" refl },
  (
    record { time = omega arith; id = not_empty "g2" refl },
    (record { time = omega arith; id = not_empty "g1" refl }, tt),
  ),
)

three_listed : length listed ≡ 3
unfolding listing grave_before str_lt sort_by insert_by all_graves mark_revived filter_allows
    all_revivals get insert
three_listed = refl

page_of-next_cursor_example :
    (cursor : String) × (cut 2 listed ≡ (take 2 listed, some cursor))
    × (page_of listed 2 (some cursor) ≡ ok (cut 2 (drop 2 listed)))
page_of-next_cursor_example =
    page_of-next_cursor 2 listed [] listed refl
      (listing-IsChain two_generations two_generations no_filter two_generations-HaveDistinctIds)
      listed-IsPlain (omega arith) (omega (arith, three_listed))

listing-IsNewestFirst_example : IsNewestFirst listed
listing-IsNewestFirst_example = listing-IsNewestFirst two_generations two_generations no_filter

selected : select_from three_graves (some "g3") ≡ ok (a_grave "g3" 9)
unfolding select_from starts_with
selected = refl

select_from_unique_example :
    ((a_grave "g3" 9).revived_as ≡ none)
    × All (λ x. (names_grave "g3" x ≡ false) ⊎ (x ≡ a_grave "g3" 9)) three_graves
select_from_unique_example = select_from_unique three_graves "g3" (a_grave "g3" 9) selected
