-- ===== src/Rewind/Branch.antt =====
-- slopd/src/grok.rs, `filter_rewind_records`: the conversation as turns.
use slopd.Base.{
  ℕ, zero, suc, ◌+◌, true, Option, none, some, List, [], ◌∷◌, ◌++◌, take, length, length-append,
  take_all, append_assoc, append-nil, ◌≡◌, refl, sym, ap, ◌∙◌, arith, Bool-cases, inl, inr,
  if◌then◌else◌, any, subst,
}
use slopd.Rewind.{
  Entry, RewindStep, rewind, user, other, rewind_step, Rewound, nth_or, is_same_prompt, apply_step,
  rewind_records, filter_rewind_records, is_marker,
}

-- What precedes the first prompt, and the turns.
pub record Branch : Type 0 where
  pub preamble : List Entry
  pub turns : List (List Entry)
  pub last_prompt_index : Option (Option ℕ)

abbrev concat : List (List Entry) → List Entry
concat [] = []
concat (t ∷ ts) = t ++ concat ts

-- A record at the end of the last turn.
abbrev extend_last : Entry → List (List Entry) → List (List Entry)
extend_last r [] = []
extend_last r (t ∷ []) = (t ++ r ∷ []) ∷ []
extend_last r (t ∷ u ∷ us) = t ∷ extend_last r (u ∷ us)

abbrev extended_preamble : Entry → List Entry → List (List Entry) → List Entry
extended_preamble r p [] = p ++ r ∷ []
extended_preamble r p (t ∷ ts) = p

abbrev extend : Entry → Branch → Branch
extend r b = record b {
  preamble = extended_preamble r b.preamble b.turns;
  turns = extend_last r b.turns;
}

-- A marker keeps the first `target` turns; a prompt opens a turn unless it continues the last.
unfoldable pub take_step : RewindStep → Entry → Branch → Branch
take_step (rewind target) r b = record b { turns = take target b.turns; last_prompt_index = none }
take_step (user index) r b =
    if is_same_prompt b.last_prompt_index index
    then record (extend r b) { last_prompt_index = some index }
    else record b { turns = b.turns ++ (r ∷ []) ∷ []; last_prompt_index = some index }
take_step other r b = record (extend r b) { last_prompt_index = none }

unfoldable pub conversation : List Entry → Branch → Branch
unfolding take_step
conversation [] b = b
conversation (r ∷ rs) b = conversation rs (take_step (rewind_step r.1) r b)

abbrev pub new_branch : Branch
new_branch = record { preamble = []; turns = []; last_prompt_index = none }

unfoldable pub flatten : Branch → List Entry
flatten b = b.preamble ++ concat b.turns

-- Where the turns start, the first at `n`.
abbrev starts_of : ℕ → List (List Entry) → List ℕ
starts_of n [] = []
starts_of n (t ∷ ts) = n ∷ starts_of (n + length t) ts

concat-snoc :
    (r : Entry) (ts : List (List Entry)) → concat (ts ++ (r ∷ []) ∷ []) ≡ concat ts ++ r ∷ []
concat-snoc r [] = refl
concat-snoc r (t ∷ ts) =
    ap (λ x. t ++ x) (concat-snoc r ts) ∙ sym (append_assoc t (concat ts) (r ∷ []))

starts_of-snoc :
    (n : ℕ) (ts : List (List Entry)) (t : List Entry)
    → starts_of n (ts ++ t ∷ []) ≡ starts_of n ts ++ (n + length (concat ts)) ∷ []
starts_of-snoc n [] t = ap (λ m. m ∷ []) (omega arith)
starts_of-snoc n (u ∷ ts) t =
    ap (λ l. n ∷ l)
      (starts_of-snoc (n + length u) ts t
        ∙ ap (λ m. starts_of (n + length u) ts ++ m ∷ [])
            (omega (arith, length-append u (concat ts))))

concat-extend_last :
    (r : Entry) (t : List Entry) (ts : List (List Entry))
    → concat (extend_last r (t ∷ ts)) ≡ concat (t ∷ ts) ++ r ∷ []
concat-extend_last r t [] = append-nil (t ++ r ∷ []) ∙ sym (ap (λ x. x ++ r ∷ []) (append-nil t))
concat-extend_last r t (u ∷ us) =
    ap (λ x. t ++ x) (concat-extend_last r u us) ∙ sym (append_assoc t (concat (u ∷ us)) (r ∷ []))

starts_of-extend_last :
    (n : ℕ) (r : Entry) (ts : List (List Entry)) → starts_of n (extend_last r ts) ≡ starts_of n ts
starts_of-extend_last n r [] = refl
starts_of-extend_last n r (t ∷ []) = refl
starts_of-extend_last n r (t ∷ u ∷ us) =
    ap (λ l. n ∷ l) (starts_of-extend_last (n + length t) r (u ∷ us))

starts_of-take :
    (n k : ℕ) (ts : List (List Entry)) → starts_of n (take k ts) ≡ take k (starts_of n ts)
starts_of-take n zero ts = refl
starts_of-take n (suc k) [] = refl
starts_of-take n (suc k) (t ∷ ts) = ap (λ l. n ∷ l) (starts_of-take (n + length t) k ts)

take-append : (xs ys : List Entry) → take (length xs) (xs ++ ys) ≡ xs
take-append [] ys = refl
take-append (x ∷ xs) ys = ap (λ l. x ∷ l) (take-append xs ys)

-- Cutting the flat transcript at the start of a turn keeps the turns before it.
take-flat :
    (pre : List Entry) (ts : List (List Entry)) (k : ℕ)
    → take (nth_or (starts_of (length pre) ts) k (length (pre ++ concat ts))) (pre ++ concat ts)
      ≡ pre ++ concat (take k ts)
take-flat pre [] zero = take_all _ _ (omega arith)
take-flat pre [] (suc k) = take_all _ _ (omega arith)
take-flat pre (t ∷ ts) zero = take-append pre (t ++ concat ts) ∙ sym (append-nil pre)
take-flat pre (t ∷ ts) (suc k) =
    subst
      (λ (n : ℕ).
        take (nth_or (starts_of n ts) k (length (pre ++ (t ++ concat ts))))
          (pre ++ (t ++ concat ts))
        ≡ pre ++ (t ++ concat (take k ts)))
      (length-append pre t)
      (subst
        (λ (l : List Entry).
          take (nth_or (starts_of (length (pre ++ t)) ts) k (length l)) l
          ≡ pre ++ (t ++ concat (take k ts)))
        (append_assoc pre t (concat ts))
        (take-flat (pre ++ t) ts k ∙ append_assoc pre t (concat (take k ts))))

-- The flat state that stands for the turns.
unfoldable rewound_of : Branch → Rewound
unfolding flatten
rewound_of b = record {
  live = b.preamble ++ concat b.turns;
  prompt_starts = starts_of (length b.preamble) b.turns;
  last_prompt_index = b.last_prompt_index;
}

same_rewound :
    (s t : Rewound)
    → s.live ≡ t.live
    → s.prompt_starts ≡ t.prompt_starts
    → s.last_prompt_index ≡ t.last_prompt_index
    → s ≡ t
same_rewound s t e f g = λ i. record { live = e i; prompt_starts = f i; last_prompt_index = g i }

extend-live :
    (r : Entry) (p : List Entry) (ts : List (List Entry))
    → (p ++ concat ts) ++ r ∷ [] ≡ extended_preamble r p ts ++ concat (extend_last r ts)
extend-live r p [] = ap (λ x. x ++ r ∷ []) (append-nil p) ∙ sym (append-nil (p ++ r ∷ []))
extend-live r p (t ∷ ts) =
    append_assoc p (concat (t ∷ ts)) (r ∷ []) ∙ ap (λ x. p ++ x) (sym (concat-extend_last r t ts))

extend-starts :
    (r : Entry) (p : List Entry) (ts : List (List Entry))
    → starts_of (length p) ts ≡ starts_of (length (extended_preamble r p ts)) (extend_last r ts)
extend-starts r p [] = refl
extend-starts r p (t ∷ ts) = sym (starts_of-extend_last (length p) r (t ∷ ts))

apply_step-rewound_of :
    (step : RewindStep) (r : Entry) (b : Branch)
    → apply_step step r (rewound_of b) ≡ rewound_of (take_step step r b)
unfolding rewound_of take_step
apply_step-rewound_of (rewind target) r b =
    same_rewound _ _ (take-flat b.preamble b.turns target)
      (sym (starts_of-take (length b.preamble) target b.turns)) refl
apply_step-rewound_of other r b =
    same_rewound _ _ (extend-live r b.preamble b.turns) (extend-starts r b.preamble b.turns) refl
apply_step-rewound_of (user index) r b =
    elim (Bool-cases (is_same_prompt b.last_prompt_index index)) [
      | inl e ↦ rw e (
          same_rewound _ _ (extend-live r b.preamble b.turns) (extend-starts r b.preamble b.turns)
            refl)
      | inr e ↦ rw e (
          same_rewound _ _
            (append_assoc b.preamble (concat b.turns) (r ∷ [])
              ∙ ap (λ x. b.preamble ++ x) (sym (concat-snoc r b.turns)))
            (ap (λ n. starts_of (length b.preamble) b.turns ++ n ∷ [])
                (length-append b.preamble (concat b.turns))
              ∙ sym (starts_of-snoc (length b.preamble) b.turns (r ∷ [])))
            refl)
    ]

rewind_records-rewound_of :
    (rs : List Entry) (b : Branch)
    → rewind_records rs (rewound_of b) ≡ rewound_of (conversation rs b)
unfolding rewind_records conversation
rewind_records-rewound_of [] b = refl
rewind_records-rewound_of (r ∷ rs) b =
    ap (rewind_records rs) (apply_step-rewound_of (rewind_step r.1) r b)
    ∙ rewind_records-rewound_of rs (take_step (rewind_step r.1) r b)

-- A transcript with a rewind marker is filtered to its live conversation: reading it as a preamble
-- and turns, where a marker drops the turns from its target on and a prompt opens a turn unless it
-- continues the last one, and writing the turns that are left one after the other gives the
-- records that the offsets into the flat transcript give.
pub filter_rewind_records-conversation :
    (rs : List Entry)
    → any is_marker rs ≡ true
    → filter_rewind_records rs ≡ flatten (conversation rs new_branch)
unfolding filter_rewind_records rewound_of flatten
filter_rewind_records-conversation rs h =
    rw h (ap (λ (s : Rewound). s.live) (rewind_records-rewound_of rs new_branch))
