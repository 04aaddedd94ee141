-- ===== src/Journal/Distinct.antt =====
-- Lists of panes with distinct ids, as tmux lists them, under the filter and the sort of `checkpoint`.
use slopd.Base.{
  Bool, List, [], ◌∷◌, ◌≢◌, sym, Bool-cases, inl, inr, All, filter, All-filter, insert_by, sort_by,
  All-insert_by, All-sort_by, str_lt, is_some,
}
use slopd.Pane.Info.{PaneInfo}
use slopd.Journal.Writer.{recoverable}

-- No pane of the list has `q`'s id.
abbrev pub IsFresh : PaneInfo → List PaneInfo → Type 0
IsFresh q = All (λ p. q.pane_id ≢ p.pane_id)

abbrev pub IsDistinct : List PaneInfo → Type 0
IsDistinct [] = Unit
IsDistinct (p ∷ ps) = IsFresh p ps × IsDistinct ps

filter-IsDistinct :
    (t : PaneInfo → Bool) (ps : List PaneInfo) → IsDistinct ps → IsDistinct (filter t ps)
filter-IsDistinct t [] h = tt
filter-IsDistinct t (p ∷ ps) h = elim (Bool-cases (t p)) [
  | inl e ↦ rw e (All-filter (λ q. p.pane_id ≢ q.pane_id) t ps h.0, filter-IsDistinct t ps h.1)
  | inr e ↦ rw e (filter-IsDistinct t ps h.1)
]

module _ (before : PaneInfo → PaneInfo → Bool) where
  insert_by-IsDistinct :
      (p : PaneInfo) (ps : List PaneInfo)
      → IsFresh p ps
      → IsDistinct ps
      → IsDistinct (insert_by before p ps)
  unfolding insert_by
  insert_by-IsDistinct p [] h d = (tt, tt)
  insert_by-IsDistinct p (q ∷ ps) h d = elim (Bool-cases (before q p)) [
    | inl e ↦ rw e (
      All-insert_by before (λ x. q.pane_id ≢ x.pane_id) p ps (λ s. h.0 (sym s)) d.0,
      insert_by-IsDistinct p ps h.1 d.1,
    )
    | inr e ↦ rw e (h, d)
  ]

  sort_by-IsDistinct : (ps : List PaneInfo) → IsDistinct ps → IsDistinct (sort_by before ps)
  unfolding sort_by
  sort_by-IsDistinct [] d = tt
  sort_by-IsDistinct (p ∷ ps) d =
      insert_by-IsDistinct p (sort_by before ps)
        (All-sort_by before (λ x. p.pane_id ≢ x.pane_id) ps d.0) (sort_by-IsDistinct ps d.1)

pub recoverable-IsDistinct : (ps : List PaneInfo) → IsDistinct ps → IsDistinct (recoverable ps)
unfolding recoverable
recoverable-IsDistinct ps d =
    sort_by-IsDistinct (λ a b. str_lt a.pane_id b.pane_id) (filter (λ p. is_some p.session_id) ps)
      (filter-IsDistinct (λ p. is_some p.session_id) ps d)
