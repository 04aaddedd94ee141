-- ===== src/Graveyard/Cursor.antt =====
-- slopd/src/journal.rs and slopd-acp/src/adapter.rs: the cursors of `graveyard_page`, and the loop of
-- `scoped_graves` that follows them.
use Prim.Native.String.{◌++◌ as join}
use text.Mathlib.TextLemmas.{nil-append, cons-append}
use slopd.Base.{
  ℕ, zero, suc, ◌≤◌, ◌<◌, String, Bool, true, Option, none, some, List, [], ◌∷◌, ◌++◌, Result, ok,
  err, ◌≡◌, ◌≢◌, refl, sym, ap, ◌∙◌, subst, arith, All, IsChain, filter, filter-All, take, drop,
  last, length, length-drop, take-append-drop, take_all, filter-append, append_assoc, max_u64,
  eq_iff,
}
use native.Mathlib.Decide.{dec_lt}
use slopd.Base.Decimal.{to_string, parse_u64, split_once, parse_u64-to_string, split_once-to_string}
use slopd.Pane.Info.{GraveEntry}
use slopd.Journal.Io.{JournalError}
use slopd.Graveyard.Page.{
  encode_graveyard_cursor, decode_graveyard_cursor, grave_before, behind_cursor, cut, page_of,
}
use slopd.Graveyard.Order.{grave_before_asymm, grave_before_irrefl, behind_cursor-grave_before}

decode_parts :
    (cursor text id : String) (at : ℕ)
    → split_once b':' cursor ≡ some (text, id)
    → parse_u64 text ≡ some at
    → id ≢ ""
    → decode_graveyard_cursor cursor ≡ ok (at, id)
unfolding decode_graveyard_cursor
decode_parts cursor text id at split parsed ne = ground (arith, eq_iff id "")

-- A cursor is read back as the time and the id that it was made of, for a time within `u64` and an
-- id that is not empty.
pub decode-encode :
    (at : ℕ) (id : String)
    → at ≤ max_u64
    → id ≢ ""
    → decode_graveyard_cursor (encode_graveyard_cursor at id) ≡ ok (at, id)
unfolding encode_graveyard_cursor
decode-encode at id h ne =
    decode_parts _ (to_string at) id at
      (ap (λ (t : String). split_once b':' (join (to_string at) t))
          (cons-append ":" "" id ∙ ap (String.◌∷◌ ":") (nil-append id))
        ∙ split_once-to_string at ":" id (omega arith))
      (parse_u64-to_string at h) ne

split_at_cursor :
    (xs ys : List GraveEntry) (e : GraveEntry)
    → IsChain grave_before (xs ++ e ∷ ys)
    → filter (grave_before e) (xs ++ e ∷ ys) ≡ ys
split_at_cursor [] ys e h = rw (grave_before_irrefl e) (filter-All (grave_before e) ys h.0)
split_at_cursor (x ∷ xs) ys e h =
    rw (grave_before_asymm x e (middle xs ys e (λ z. grave_before x z ≡ true) h.0))
      (split_at_cursor xs ys e h.1)
  where
    middle :
        (xs ys : List GraveEntry) (e : GraveEntry) (P : GraveEntry → Type 0)
        → All P (xs ++ e ∷ ys)
        → P e
    middle [] ys e P k = k.0
    middle (x ∷ xs) ys e P k = middle xs ys e P k.1

-- Where a list is longer than the page, the page ends with an entry and the rest follows it.
page_end :
    (limit : ℕ) (xs : List GraveEntry)
    → 0 < limit
    → limit < length xs
    → (front : List GraveEntry) × (e : GraveEntry) × (last (take limit xs) ≡ some e)
      × (xs ≡ front ++ e ∷ drop limit xs)
page_end zero xs h k = absurd (omega arith)
page_end (suc zero) [] h k = absurd (omega arith)
page_end (suc zero) (x ∷ xs) h k = ([], x, refl, refl)
page_end (suc (suc n)) [] h k = absurd (omega arith)
page_end (suc (suc n)) (x ∷ []) h k = absurd (omega arith)
page_end (suc (suc n)) (x ∷ y ∷ xs) h k =
    let (front, e, ends, splits) = page_end (suc n) (y ∷ xs) (omega arith) (omega arith) in
    (x ∷ front, e, ends, ap (◌∷◌ x) splits)

filter_ext :
    (p q : GraveEntry → Bool) (xs : List GraveEntry)
    → ((x : GraveEntry) → p x ≡ q x)
    → filter p xs ≡ filter q xs
filter_ext p q [] h = refl
filter_ext p q (x ∷ xs) h = rw (h x, filter_ext p q xs h)

-- Times within `u64` and ids that are not empty.
pub record IsPlain (e : GraveEntry) : Type 0 where
  pub time : e.destroyed_at ≤ max_u64
  pub id : e.grave_id ≢ ""

All-middle :
    (P : GraveEntry → Type 0) (xs ys : List GraveEntry) (e : GraveEntry)
    → All P (xs ++ e ∷ ys)
    → P e
All-middle P [] ys e k = k.0
All-middle P (x ∷ xs) ys e k = All-middle P xs ys e k.1

-- The page at the cursor that ends a page of a listing begins where that page stopped. The listing is
-- sorted strictly, so that no two graves of one second share an id, the times are within `u64`, the
-- ids are not empty, and the page size is positive and below what is left.
pub page_of-next_cursor :
    (limit : ℕ) (xs seen ys : List GraveEntry)
    → xs ≡ seen ++ ys
    → IsChain grave_before xs
    → All IsPlain xs
    → 0 < limit
    → limit < length ys
    → (cursor : String) × (cut limit ys ≡ (take limit ys, some cursor))
      × (page_of xs limit (some cursor) ≡ ok (cut limit (drop limit ys)))
unfolding page_of
page_of-next_cursor limit xs seen ys whole chain plain h k =
    let (front, e, ends, splits) = page_end limit ys h k in
    let parts : xs ≡ (seen ++ front) ++ e ∷ drop limit ys =
      whole ∙ (ap (◌++◌ seen) splits ∙ sym (append_assoc seen front (e ∷ drop limit ys))) in
    let ordinary : IsPlain e =
      All-middle IsPlain (seen ++ front) (drop limit ys) e (subst (All IsPlain) parts plain) in
    let rest : filter (grave_before e) xs ≡ drop limit ys =
      ap (filter (grave_before e)) parts
      ∙ split_at_cursor (seen ++ front) (drop limit ys) e
          (subst (IsChain grave_before) parts chain) in
    let decoded = decode-encode e.destroyed_at e.grave_id ordinary.time ordinary.id in
    let behind : filter (behind_cursor e.destroyed_at e.grave_id) xs ≡ drop limit ys =
      filter_ext _ _ xs (behind_cursor-grave_before e) ∙ rest in
    (
      encode_graveyard_cursor e.destroyed_at e.grave_id,
      unfold cut in rw ends (ground arith),
      rw (decoded, page_of) (rw behind),
    )

-- `graves.extend(page)` before the rest of the loop.
abbrev extend :
    List GraveEntry
    → Option (Result JournalError (List GraveEntry))
    → Option (Result JournalError (List GraveEntry))
extend page none = none
extend page (some (err e)) = some (err e)
extend page (some (ok rest)) = some (ok (page ++ rest))

-- slopd-acp/src/adapter.rs: the loop of `scoped_graves` over the pages of one listing; `keep` is
-- `pane_is_in_scope`. Each round asks for one page, so the fuel counts the pages.
unfoldable pub scoped_graves :
    ℕ
    → (GraveEntry → Bool)
    → List GraveEntry
    → ℕ
    → Option String
    → Option (Result JournalError (List GraveEntry))
scoped_graves zero keep xs limit cursor = none
scoped_graves (suc fuel) keep xs limit cursor = elim (page_of xs limit cursor) [
  | err e ↦ some (err e)
  | ok (page, next) ↦ elim next [
    | none ↦ some (ok (filter keep page))
    | some c ↦ extend (filter keep page) (scoped_graves fuel keep xs limit (some c))
  ]
]

last_page : (limit : ℕ) (xs : List GraveEntry) → length xs ≤ limit → cut limit xs ≡ (xs, none)
unfolding cut
last_page limit xs h = rw (take_all limit xs h) (ground arith)

-- One more round of the loop, when the page has a next cursor.
another_round :
    (fuel : ℕ) (keep : GraveEntry → Bool) (xs ys page : List GraveEntry) (limit : ℕ)
    (cur : Option String) (cursor : String)
    → page_of xs limit cur ≡ ok (page, some cursor)
    → scoped_graves fuel keep xs limit (some cursor) ≡ some (ok (filter keep ys))
    → scoped_graves (suc fuel) keep xs limit cur ≡ some (ok (filter keep (page ++ ys)))
unfolding scoped_graves
another_round fuel keep xs ys page limit cur cursor here rest =
    rw (here, scoped_graves) (rw (rest, filter-append keep page ys))

final_round :
    (fuel : ℕ) (keep : GraveEntry → Bool) (xs page : List GraveEntry) (limit : ℕ)
    (cur : Option String)
    → page_of xs limit cur ≡ ok (page, none)
    → scoped_graves (suc fuel) keep xs limit cur ≡ some (ok (filter keep page))
unfolding scoped_graves
final_round fuel keep xs page limit cur here = rw (here, scoped_graves)

module _ (keep : GraveEntry → Bool) (limit : ℕ) (xs : List GraveEntry)
    (chain : IsChain grave_before xs) (plain : All IsPlain xs) (positive : 0 < limit) where
  rounds :
      (fuel : ℕ) (seen ys : List GraveEntry) (cur : Option String)
      → xs ≡ seen ++ ys
      → page_of xs limit cur ≡ ok (cut limit ys)
      → length ys < fuel
      → scoped_graves fuel keep xs limit cur ≡ some (ok (filter keep ys))
  rounds zero seen ys cur whole here h = absurd (omega arith)
  rounds (suc fuel) seen ys cur whole here h = elim (dec_lt limit (length ys)) [
    | no short ↦
        final_round fuel keep xs ys limit cur (here ∙ ap ok (last_page limit ys (omega arith)))
    | yes more ↦
        let (cursor, paged, follows) =
          page_of-next_cursor limit xs seen ys whole chain plain positive more in
        let rest =
          rounds fuel (seen ++ take limit ys) (drop limit ys) (some cursor)
            (whole
              ∙ (ap (◌++◌ seen) (sym (take-append-drop limit ys))
                  ∙ sym (append_assoc seen (take limit ys) (drop limit ys))))
            follows (omega (arith, length-drop limit ys)) in
        another_round fuel keep xs (drop limit ys) (take limit ys) limit cur cursor
          (here ∙ ap ok paged) rest
        ∙ ap (λ (l : List GraveEntry). some (ok (filter keep l))) (take-append-drop limit ys)
  ]

  -- Over a strictly sorted listing, with times within `u64` and ids that are not empty, and with any
  -- positive page size, the paging loop ends within as many rounds as there are entries and one, and
  -- gathers every entry in scope once, in order.
  pub scoped_graves_complete :
      (fuel : ℕ)
      → length xs < fuel
      → scoped_graves fuel keep xs limit none ≡ some (ok (filter keep xs))
  unfolding page_of
  scoped_graves_complete fuel h = rounds fuel [] xs none refl refl h
