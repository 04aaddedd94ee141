-- ===== src/Graveyard/Select.antt =====
-- slopd/src/journal.rs: `select_grave`, the grave that a revival means.
use slopd.Base.{
  String, Bool, false, Option, none, some, List, [], ◌∷◌, Result, ok, err, filter, take, is_none,
  starts_with, max_u64, ◌==◌, ◌≡◌, refl, sym, arith, All, ◌⊎◌, Bool-cases, inl, inr, if◌then◌else◌,
  map, subst,
}
use slopd.Pane.Info.{GraveEntry, no_filter}
use slopd.Journal.Io.{JournalError, Journal}
use slopd.Graveyard.Generations.{ℤ}
use slopd.Graveyard.Page.{graveyard_page}

pub data SelectError : Type 0 where
  journal : JournalError → SelectError
  no_match : Option String → SelectError
  ambiguous : (candidates : List String) → SelectError
  already_revived : (grave_id pane_id : String) → SelectError

abbrev pub names_grave : String → GraveEntry → Bool
names_grave target e =
    if starts_with target "%" then e.pane.pane_id == target else starts_with e.grave_id target

unfoldable pub matches : List GraveEntry → Option String → List GraveEntry
matches entries none = take 1 (filter (λ (e : GraveEntry). is_none e.revived_at) entries)
matches entries (some target) = filter (names_grave target) entries

abbrev unrevived : Option String → GraveEntry → Result SelectError GraveEntry
unrevived none e = ok e
unrevived (some pane_id) e = err (already_revived e.grave_id pane_id)

abbrev only : Option String → List GraveEntry → Result SelectError GraveEntry
only target [] = err (no_match target)
only target (e ∷ []) = unrevived e.revived_as e
only target (e ∷ f ∷ es) = err (ambiguous (map (λ (g : GraveEntry). g.grave_id) (e ∷ f ∷ es)))

unfoldable pub select_from : List GraveEntry → Option String → Result SelectError GraveEntry
unfolding matches
select_from entries target = only target (matches entries target)

abbrev select_in :
    Option String
    → Result JournalError (List GraveEntry × Option String) × Journal
    → Result SelectError GraveEntry × Journal
select_in target (err e, j) = (err (journal e), j)
select_in target (ok (entries, next), j) = (select_from entries target, j)

unfoldable pub select_grave :
    Option String → Option ℤ → Journal → Result SelectError GraveEntry × Journal
unfolding select_from graveyard_page
select_grave target boot j = select_in target (graveyard_page boot max_u64 no_filter none j)

only-one :
    (target : Option String) (es : List GraveEntry) (e : GraveEntry)
    → only target es ≡ ok e
    → (es ≡ e ∷ []) × (e.revived_as ≡ none)
only-one target [] e h = absurd cc
only-one target (x ∷ []) e h = by_revival x.revived_as refl h
  where
    by_revival :
        (o : Option String)
        → x.revived_as ≡ o
        → unrevived o x ≡ ok e
        → (x ∷ [] ≡ e ∷ []) × (e.revived_as ≡ none)
    by_revival none k g = (ground (arith, g), ground (arith, g, k))
    by_revival (some p) k g = absurd cc
only-one target (x ∷ y ∷ es) e h = absurd cc

-- An entry that a filter keeps is in what it leaves.
All-kept :
    (p : GraveEntry → Bool) (es : List GraveEntry) (Q : GraveEntry → Type 0)
    → All Q (filter p es)
    → All (λ x. (p x ≡ false) ⊎ Q x) es
All-kept p [] Q h = tt
All-kept p (x ∷ es) Q h = elim (Bool-cases (p x)) [
  | inr f ↦
      (inl f, All-kept p es Q (subst (λ b. All Q (if b then x ∷ filter p es else filter p es)) f h))
  | inl f ↦
      let k : All Q (x ∷ filter p es) =
        subst (λ b. All Q (if b then x ∷ filter p es else filter p es)) f h in
      (inr k.0, All-kept p es Q k.1)
]

-- A revival by id prefix or by pane id never guesses: the grave that is selected has not been
-- revived, and every other grave of the list is one that the target does not name.
pub select_from_unique :
    (entries : List GraveEntry) (target : String) (e : GraveEntry)
    → select_from entries (some target) ≡ ok e
    → (e.revived_as ≡ none) × All (λ x. (names_grave target x ≡ false) ⊎ (x ≡ e)) entries
unfolding select_from matches
select_from_unique entries target e h =
    let one = only-one (some target) (filter (names_grave target) entries) e h in
    (
      one.1,
      All-kept (names_grave target) entries (λ x. x ≡ e)
          (subst (All (λ x. x ≡ e)) (sym one.0) (refl, tt)),
    )
