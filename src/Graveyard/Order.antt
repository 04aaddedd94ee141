-- ===== src/Graveyard/Order.antt =====
-- slopd/src/journal.rs, `graveyard_page`: the order of a listing.
use slopd.Base.{
  ◌≤◌, ℕ, String, true, false, List, [], ◌∷◌, map, ◌≡◌, ◌≢◌, ◌⊎◌, arith, All, str_lt_irrefl, str_lt,
  str_lt_trans, str_lt_asymm, str_lt_total, IsChain, IsComparable, sort_by-IsChain, filter-IsChain,
  IsSorted, sort_by-IsSorted, filter-IsSorted, Bool-cases, inl, inr, ap, Map, string_eq,
}
use slopd.Pane.Info.{GraveEntry, GraveyardFilter}
use slopd.Journal.Replay.{GenerationState}
use slopd.Graveyard.Page.{
  grave_before, behind_cursor, listing, mark_revived, all_graves, all_revivals, filter_allows,
}

pub grave_before_trans :
    (a b c : GraveEntry)
    → grave_before a b ≡ true
    → grave_before b c ≡ true
    → grave_before a c ≡ true
unfolding grave_before
grave_before_trans a b c h k = ground (arith, str_lt_trans c.grave_id b.grave_id a.grave_id)

pub grave_before_asymm : (a b : GraveEntry) → grave_before a b ≡ true → grave_before b a ≡ false
unfolding grave_before
grave_before_asymm a b h = ground (arith, str_lt_asymm b.grave_id a.grave_id)

pub grave_before_irrefl : (a : GraveEntry) → grave_before a a ≡ false
unfolding grave_before
grave_before_irrefl a = ground (arith, str_lt_irrefl a.grave_id)

-- Behind a grave's own cursor stand the graves that come after it.
pub behind_cursor-grave_before :
    (a b : GraveEntry) → behind_cursor a.destroyed_at a.grave_id b ≡ grave_before a b
unfolding behind_cursor grave_before
behind_cursor-grave_before a b = ground arith

grave_before_total :
    (a b : GraveEntry)
    → a.grave_id ≢ b.grave_id
    → (grave_before a b ≡ true) ⊎ (grave_before b a ≡ true)
unfolding grave_before
grave_before_total a b ne = ground (arith, str_lt_total a.grave_id b.grave_id)

-- No two graves of the list have one id.
abbrev pub HaveDistinctIds : List GraveEntry → Type 0
HaveDistinctIds [] = Unit
HaveDistinctIds (e ∷ es) = All (λ x. e.grave_id ≢ x.grave_id) es × HaveDistinctIds es

module _ (revived : Map String (ℕ × String)) where
  grave_id-mark_revived : (e : GraveEntry) → (mark_revived revived e).grave_id ≡ e.grave_id
  unfolding mark_revived
  grave_id-mark_revived e = ground arith

  comparable_with :
      (e : GraveEntry) (es : List GraveEntry)
      → All (λ x. e.grave_id ≢ x.grave_id) es
      → All
          (λ x.
            (grave_before (mark_revived revived e) x ≡ true)
            ⊎ (grave_before x (mark_revived revived e) ≡ true))
          (map (mark_revived revived) es)
  comparable_with e [] h = tt
  comparable_with e (x ∷ es) h = (
    grave_before_total (mark_revived revived e) (mark_revived revived x)
        (λ p. h.0 (ground (arith, p, grave_id-mark_revived e, grave_id-mark_revived x))),
    comparable_with e es h.1,
  )

  marked-IsComparable :
      (es : List GraveEntry)
      → HaveDistinctIds es
      → IsComparable grave_before (map (mark_revived revived) es)
  marked-IsComparable [] h = tt
  marked-IsComparable (e ∷ es) h = (comparable_with e es h.0, marked-IsComparable es h.1)

-- Where no id is there twice, a listing is sorted strictly.
pub listing-IsChain :
    (generations selected : List GenerationState) (f : GraveyardFilter)
    → HaveDistinctIds (all_graves selected)
    → IsChain grave_before (listing generations selected f)
unfolding listing
listing-IsChain generations selected f h = filter-IsChain grave_before (filter_allows f) _ (
    sort_by-IsChain grave_before grave_before_trans _
      (marked-IsComparable (all_revivals generations []) (all_graves selected) h))

str_lt_neg_trans : (a b c : String) → str_lt a b ≡ false → str_lt b c ≡ false → str_lt a c ≡ false
str_lt_neg_trans a b c h k = elim (Bool-cases (str_lt a c)) [
  | inr e ↦ e
  | inl e ↦ elim (Bool-cases (str_lt c b)) [
    | inl f ↦ absurd (ground (arith, h, str_lt_trans a c b e f))
    | inr f ↦ absurd (ground (arith, h, e, ap (str_lt a) (str_lt_total b c k f)))
  ]
]

grave_before_neg_trans :
    (a b c : GraveEntry)
    → grave_before b a ≡ false
    → grave_before c b ≡ false
    → grave_before c a ≡ false
unfolding grave_before
grave_before_neg_trans a b c h k = ground (arith, str_lt_neg_trans a.grave_id b.grave_id c.grave_id)

-- The times descend, and among the graves of one second the ids do not ascend.
abbrev pub IsNewestFirst : List GraveEntry → Type 0
IsNewestFirst [] = Unit
IsNewestFirst (a ∷ graves) =
    All
      (λ b.
        (b.destroyed_at ≤ a.destroyed_at)
        × (b.destroyed_at ≡ a.destroyed_at → str_lt a.grave_id b.grave_id ≡ false))
      graves
    × IsNewestFirst graves

All-newest :
    (a : GraveEntry) (graves : List GraveEntry)
    → All (λ b. grave_before b a ≡ false) graves
    → All
        (λ b.
          (b.destroyed_at ≤ a.destroyed_at)
          × (b.destroyed_at ≡ a.destroyed_at → str_lt a.grave_id b.grave_id ≡ false))
        graves
unfolding grave_before
All-newest a [] h = tt
All-newest a (b ∷ graves) h =
    ((ground (arith, h.0), λ e. ground (arith, h.0, e)), All-newest a graves h.1)

IsSorted-IsNewestFirst :
    (graves : List GraveEntry) → IsSorted grave_before graves → IsNewestFirst graves
IsSorted-IsNewestFirst [] h = tt
IsSorted-IsNewestFirst (a ∷ graves) h = (All-newest a graves h.0, IsSorted-IsNewestFirst graves h.1)

-- A listing never shows a grave behind an older one, nor behind one of the same second with a lower
-- id, whatever the filter and whether or not an id is there twice.
pub listing-IsNewestFirst :
    (generations selected : List GenerationState) (f : GraveyardFilter)
    → IsNewestFirst (listing generations selected f)
unfolding listing
listing-IsNewestFirst generations selected f = IsSorted-IsNewestFirst _ (
    filter-IsSorted grave_before (filter_allows f) _
      (sort_by-IsSorted grave_before grave_before_asymm grave_before_neg_trans _))
