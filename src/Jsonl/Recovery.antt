-- ===== src/Jsonl/Recovery.antt =====
-- libslop/src/jsonl.rs, `replay` and `append`: what files replay as, repaired and not.
use slopd.Base.{
  zero, suc, take, length, ◌<◌, ◌≤◌, ℕ, true, false, none, List, [], ◌∷◌, ◌++◌, Result, ok, err,
  last, ◌≡◌, ◌≢◌, refl, sym, ap, ◌∙◌, subst, arith, append_assoc, append-nil,
}
use slopd.Jsonl.{
  is_blank, Codec, is_nil, lines, repair, append, replay_lines, replay, IsLawful, file_of,
  append_cut, RejectsJoined, ends_line, cons_event,
}
use slopd.Jsonl.Crash.{
  IsInline, lines-line, last-append, last-inline, All-prefix, file_of-append, repair-part,
  repair-file, to_vec-not_nil,
}

module _ {E : Type 0} (codec : Codec E) (law : IsLawful codec) where
  all_events : List E → Result (Unit {0}) (List E) → Result (Unit {0}) (List E)
  all_events [] r = r
  all_events (e ∷ es) r = cons_event codec e (all_events es r)

  all_events_ok : (es fs : List E) → all_events es (ok fs) ≡ ok (es ++ fs)
  unfolding all_events
  all_events_ok [] fs = refl
  all_events_ok (e ∷ es) fs = ap (cons_event codec e) (all_events_ok es fs)

  all_events_err : (es : List E) → all_events es (err tt) ≡ err tt
  unfolding all_events
  all_events_err [] = refl
  all_events_err (e ∷ es) = ap (cons_event codec e) (all_events_err es)

  first_event :
      (e : E) (ls : List (List ℕ))
      → replay_lines codec (codec.to_vec e ∷ ls) ≡ cons_event codec e (replay_lines codec ls)
  unfolding replay_lines
  first_event e ls = rw (law.not_blank e, law.read_back e) refl

  replay-after :
      (es : List E) (bytes : List ℕ) (fs : Result (Unit {0}) (List E))
      → replay codec bytes ≡ fs
      → replay codec (file_of codec es ++ bytes) ≡ all_events es fs
  unfolding replay file_of all_events
  replay-after [] bytes fs h = h
  replay-after (e ∷ es) bytes fs h =
      ap (λ x. replay_lines codec (lines x))
        (append_assoc (codec.to_vec e) (10 ∷ file_of codec es) bytes)
      ∙ (ap (replay_lines codec)
            (lines-line (codec.to_vec e) (file_of codec es ++ bytes) (law.one_line e))
          ∙ (first_event e (lines (file_of codec es ++ bytes))
              ∙ ap (cons_event codec e) (replay-after es bytes fs h)))

  replay_nil : replay codec [] ≡ ok []
  unfolding replay replay_lines lines
  replay_nil = refl

  replay-file : (es : List E) → replay codec (file_of codec es) ≡ ok es
  replay-file es =
      ap (replay codec) (sym (append-nil (file_of codec es)))
      ∙ (replay-after es [] (ok []) replay_nil ∙ (all_events_ok es [] ∙ ap ok (append-nil es)))

  -- The bytes of a file that an append left behind are repaired to those of the events before it.
  repair-cut :
      (es : List E) (e : E) (part rest : List ℕ)
      → codec.to_vec e ≡ part ++ rest
      → rest ≢ []
      → repair codec (file_of codec es ++ part) ≡ file_of codec es
  repair-cut es e [] rest cut more =
      ap (repair codec) (append-nil (file_of codec es)) ∙ repair-file codec law es
  repair-cut es e (b ∷ bs) rest cut more =
      repair-part codec law es b bs (All-prefix (b ∷ bs) rest (subst IsInline cut (law.one_line e)))
      ∙ rw (law.no_prefix e (b ∷ bs) rest cut more) refl

  -- A process that is stopped in the middle of an append loses that event and no other: after the
  -- repair that opening the file makes, it replays as the events that were appended before, and an
  -- event that is appended next stands behind them.
  pub replay-repair :
      (es : List E) (e f : E) (part rest : List ℕ)
      → codec.to_vec e ≡ part ++ rest
      → rest ≢ []
      → (replay codec (repair codec (file_of codec es ++ part)) ≡ ok es)
        × (replay codec (append codec f (repair codec (file_of codec es ++ part)))
            ≡ ok (es ++ f ∷ []))
  replay-repair es e f part rest cut more =
      let mended = repair-cut es e part rest cut more in
      (
        ap (replay codec) mended ∙ replay-file es,
        ap (λ x. replay codec (append codec f x)) mended
            ∙ (ap (replay codec) (file_of-append codec law es f) ∙ replay-file (es ++ f ∷ [])),
      )

  append_bytes :
      (es : List E) (e : E)
      → file_of codec es ++ (codec.to_vec e ++ 10 ∷ []) ≡ append codec e (file_of codec es)
  unfolding append
  append_bytes es e = refl

  repair-unended :
      (es : List E) (e : E) (b : ℕ) (bs : List ℕ)
      → codec.to_vec e ≡ b ∷ bs
      → repair codec (file_of codec es ++ b ∷ bs) ≡ (file_of codec es ++ b ∷ bs) ++ 10 ∷ []
  repair-unended es e b bs same =
      let inline : IsInline (b ∷ bs) = subst IsInline same (law.one_line e) in
      let value : codec.is_value (b ∷ bs) ≡ true =
        subst (λ x. codec.is_value x ≡ true) same (law.whole e) in
      let open_end : ends_line (last (file_of codec es ++ b ∷ bs)) ≡ false =
        ap ends_line (last-append (file_of codec es) b bs) ∙ last-inline b bs inline in
      repair-part codec law es b bs inline ∙ rw (value, open_end) refl

  -- If only the line end of an event is missing, the repair writes it and the event is kept.
  pub replay-repair_whole :
      (es : List E) (e : E)
      → replay codec (repair codec (file_of codec es ++ codec.to_vec e)) ≡ ok (es ++ e ∷ [])
  replay-repair_whole es e = by_text (codec.to_vec e) refl
    where
      nothing : true ≡ false → ⊥
      nothing h = cc

      by_text :
          (bs : List ℕ)
          → codec.to_vec e ≡ bs
          → replay codec (repair codec (file_of codec es ++ bs)) ≡ ok (es ++ e ∷ [])
      by_text [] same = absurd (nothing (sym (ap is_nil same) ∙ to_vec-not_nil codec law e))
      by_text (b ∷ bs) same =
          ap (replay codec) (
            repair-unended es e b bs same
            ∙ (append_assoc (file_of codec es) (b ∷ bs) (10 ∷ [])
                ∙ (ap (λ x. file_of codec es ++ (x ++ 10 ∷ [])) (sym same)
                    ∙ (append_bytes es e ∙ file_of-append codec law es e))))
          ∙ replay-file (es ++ e ∷ [])

  is_blank-append : (xs ys : List ℕ) → is_blank ys ≡ false → is_blank (xs ++ ys) ≡ false
  is_blank-append [] ys h = h
  is_blank-append (x ∷ xs) ys h = ground (arith, is_blank-append xs ys h)

  IsInline-append : (xs ys : List ℕ) → IsInline xs → IsInline ys → IsInline (xs ++ ys)
  IsInline-append [] ys h k = k
  IsInline-append (x ∷ xs) ys h k = (h.0, IsInline-append xs ys h.1 k)

  spoiled :
      (line l : List ℕ) (ls : List (List ℕ))
      → is_blank line ≡ false
      → codec.from_str line ≡ none
      → replay_lines codec (line ∷ l ∷ ls) ≡ err tt
  unfolding replay_lines
  spoiled line l ls h k = rw (h, k) refl

  replay_malformed :
      (es : List E) (f g : E) (part : List ℕ)
      → IsInline part
      → codec.from_str (part ++ codec.to_vec f) ≡ none
      → replay codec (append codec g (append codec f (file_of codec es ++ part))) ≡ err tt
  unfolding replay append
  replay_malformed es f g part inline bad =
      let line = part ++ codec.to_vec f in
      ap (replay codec) (regroup (file_of codec es) part (codec.to_vec f) (codec.to_vec g))
      ∙ (replay-after es (line ++ 10 ∷ (codec.to_vec g ++ 10 ∷ [])) (err tt) (
            ap (replay_lines codec) (
              lines-line line (codec.to_vec g ++ 10 ∷ [])
                (IsInline-append part (codec.to_vec f) inline (law.one_line f))
              ∙ ap (λ x. line ∷ x) (lines-line (codec.to_vec g) [] (law.one_line g)))
            ∙ spoiled line (codec.to_vec g) (lines [])
                (is_blank-append part (codec.to_vec f) (law.not_blank f)) bad)
          ∙ all_events_err es)
    where
      regroup :
          (a p x y : List ℕ)
          → ((a ++ p) ++ (x ++ 10 ∷ [])) ++ (y ++ 10 ∷ []) ≡ a ++ ((p ++ x) ++ 10 ∷ (y ++ 10 ∷ []))
      regroup a p x y =
          append_assoc (a ++ p) (x ++ 10 ∷ []) (y ++ 10 ∷ [])
          ∙ (append_assoc a p ((x ++ 10 ∷ []) ++ (y ++ 10 ∷ []))
              ∙ ap (λ z. a ++ z)
                  (ap (λ z. p ++ z) (append_assoc x (10 ∷ []) (y ++ 10 ∷ []))
                    ∙ sym (append_assoc p x (10 ∷ (y ++ 10 ∷ [])))))

  take_within : (n : ℕ) (xs ys : List ℕ) → n ≤ length xs → take n (xs ++ ys) ≡ take n xs
  take_within zero xs ys h = refl
  take_within (suc n) [] ys h = absurd (omega (arith, h))
  take_within (suc n) (x ∷ xs) ys h = ap (◌∷◌ x) (take_within n xs ys (omega (arith, h)))

  IsInline-take : (n : ℕ) (xs : List ℕ) → IsInline xs → IsInline (take n xs)
  IsInline-take zero xs h = tt
  IsInline-take (suc n) [] h = tt
  IsInline-take (suc n) (x ∷ xs) h = (h.0, IsInline-take n xs h.1)

  -- A file is repaired when it is opened and not before a later append. If an append fails after
  -- some bytes of its event were written, and the process appends two more events to the same file,
  -- the file no longer replays: those bytes and the next event are one malformed line that is not
  -- the last. That such a line is malformed is taken of the JSON parser (`RejectsJoined`).
  pub replay-spoiled :
      RejectsJoined codec
      → (es : List E) (e f g : E) (n : ℕ) → 0 < n
      → n ≤ length (codec.to_vec e)
      → replay codec (append codec g (append codec f (append_cut codec n e (file_of codec es))))
        ≡ err tt
  unfolding append_cut
  replay-spoiled rejects es e f g n some_bytes within =
      rw (take_within n (codec.to_vec e) (10 ∷ []) within) (
        replay_malformed es f g (take n (codec.to_vec e))
          (IsInline-take n (codec.to_vec e) (law.one_line e)) (rejects e f n some_bytes within))
