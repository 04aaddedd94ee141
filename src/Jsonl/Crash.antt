-- ===== src/Jsonl/Crash.antt =====
-- libslop/src/jsonl.rs, `repair`: the bytes of a file behind which an append was cut off.
use slopd.Base.{
  ℕ, false, some, List, [], ◌∷◌, ◌++◌, last, All, ◌≡◌, refl, sym, ap, ◌∙◌, arith, append_assoc,
}
use slopd.Jsonl.{
  is_newline, is_blank, Codec, is_nil, trim, split_cons, split_last, lines, repair, append,
  IsLawful, file_of, mend, ends_line,
}

-- No line end in the bytes.
abbrev pub IsInline : List ℕ → Type 0
IsInline = All (λ b. is_newline b ≡ false)

trim-inline : (bs : List ℕ) → IsInline bs → trim bs ≡ bs
unfolding trim
trim-inline [] h = refl
trim-inline (b ∷ bs) h = rw (trim-inline bs h.1) (ground (arith, h.0))

-- Bytes before a text that ends in no line end are kept.
trim-append : (xs ys : List ℕ) → is_nil (trim ys) ≡ false → trim (xs ++ ys) ≡ xs ++ trim ys
unfolding trim
trim-append [] ys h = refl
trim-append (x ∷ xs) ys h = rw (trim-append xs ys h) (rw (not_nil xs (trim ys) h) refl)
  where
    not_nil : (xs ts : List ℕ) → is_nil ts ≡ false → is_nil (xs ++ ts) ≡ false
    not_nil [] ts k = k
    not_nil (z ∷ zs) ts k = refl

split_last-inline : (bs : List ℕ) → IsInline bs → split_last bs ≡ ([], bs)
unfolding split_last
split_last-inline [] h = refl
split_last-inline (b ∷ bs) h = ap (split_cons b) (split_last-inline bs h.1) ∙ ground (arith, h.0)

split_cons_end : (p l : List ℕ) → split_cons 10 (p, l) ≡ (10 ∷ p, l)
split_cons_end [] l = refl
split_cons_end (x ∷ p) l = refl

split_last-line :
    (line rest : List ℕ)
    → split_last (line ++ 10 ∷ rest) ≡ (line ++ 10 ∷ (split_last rest).0, (split_last rest).1)
unfolding split_last
split_last-line [] rest = split_cons_end (split_last rest).0 (split_last rest).1
split_last-line (b ∷ line) rest = ap (split_cons b) (split_last-line line rest) ∙ cons_line line
  where
    cons_line :
        (l : List ℕ)
        → split_cons b (l ++ 10 ∷ (split_last rest).0, (split_last rest).1)
          ≡ (b ∷ (l ++ 10 ∷ (split_last rest).0), (split_last rest).1)
    cons_line [] = refl
    cons_line (x ∷ l) = refl

pub lines-line :
    (line rest : List ℕ) → IsInline line → lines (line ++ 10 ∷ rest) ≡ line ∷ lines rest
unfolding lines
lines-line [] rest h = refl
lines-line (b ∷ line) rest h = rw (lines-line line rest h.1) (ground (arith, h.0))

pub last-append : (xs : List ℕ) (y : ℕ) (ys : List ℕ) → last (xs ++ y ∷ ys) ≡ last (y ∷ ys)
last-append [] y ys = refl
last-append (x ∷ []) y ys = refl
last-append (x ∷ z ∷ xs) y ys = last-append (z ∷ xs) y ys

pub last-inline : (b : ℕ) (bs : List ℕ) → IsInline (b ∷ bs) → ends_line (last (b ∷ bs)) ≡ false
last-inline b [] h = ground (arith, h.0)
last-inline b (c ∷ bs) h = last-inline c bs h.1

trim-line : (line : List ℕ) → IsInline line → trim (line ++ 10 ∷ []) ≡ line
unfolding trim
trim-line [] h = refl
trim-line (b ∷ line) h = rw (trim-line line h.1) (ground (arith, h.0))

trim_newline : (ys : List ℕ) → is_nil (trim ys) ≡ false → trim (10 ∷ ys) ≡ 10 ∷ trim ys
unfolding trim
trim_newline ys h = rw h refl

pub All-prefix : (part rest : List ℕ) → IsInline (part ++ rest) → IsInline part
All-prefix [] rest h = tt
All-prefix (b ∷ part) rest h = (h.0, All-prefix part rest h.1)

module _ {E : Type 0} (codec : Codec E) (law : IsLawful codec) where
  pub file_of-append :
      (es : List E) (e : E) → append codec e (file_of codec es) ≡ file_of codec (es ++ e ∷ [])
  unfolding append file_of
  file_of-append [] e = refl
  file_of-append (d ∷ es) e =
      append_assoc (codec.to_vec d) (10 ∷ file_of codec es) (codec.to_vec e ++ 10 ∷ [])
      ∙ ap (λ x. codec.to_vec d ++ 10 ∷ x) (file_of-append es e)

  pub split_last-file :
      (es : List E) (part : List ℕ)
      → IsInline part
      → split_last (file_of codec es ++ part) ≡ (file_of codec es, part)
  unfolding file_of
  split_last-file [] part h = split_last-inline part h
  split_last-file (e ∷ es) part h =
      ap split_last (append_assoc (codec.to_vec e) (10 ∷ file_of codec es) part)
      ∙ (split_last-line (codec.to_vec e) (file_of codec es ++ part)
          ∙ ap (λ (r : List ℕ × List ℕ). (codec.to_vec e ++ 10 ∷ r.0, r.1))
              (split_last-file es part h))

  not_nil-append : (xs : List ℕ) (b : ℕ) (bs : List ℕ) → is_nil (xs ++ b ∷ bs) ≡ false
  not_nil-append [] b bs = refl
  not_nil-append (x ∷ xs) b bs = refl

  pub repair-part :
      (es : List E) (b : ℕ) (bs : List ℕ)
      → IsInline (b ∷ bs)
      → repair codec (file_of codec es ++ b ∷ bs)
        ≡ mend codec (file_of codec es ++ b ∷ bs) (file_of codec es) (b ∷ bs)
  unfolding repair
  repair-part es b bs h =
      let same = trim-inline (b ∷ bs) h in
      let kept : trim (file_of codec es ++ b ∷ bs) ≡ file_of codec es ++ b ∷ bs =
        trim-append (file_of codec es) (b ∷ bs) (ap is_nil same)
        ∙ ap (λ x. file_of codec es ++ x) same in
      rw (kept, not_nil-append (file_of codec es) b bs, split_last-file es (b ∷ bs) h) refl

  -- The file without its last line end.
  body_of : E → List E → List ℕ
  body_of e [] = codec.to_vec e
  body_of e (f ∷ fs) = codec.to_vec e ++ 10 ∷ body_of f fs

  last_of : E → List E → E
  last_of e [] = e
  last_of e (f ∷ fs) = last_of f fs

  pub to_vec-not_nil : (e : E) → is_nil (codec.to_vec e) ≡ false
  to_vec-not_nil e = go (codec.to_vec e) (law.not_blank e)
    where
      go : (bs : List ℕ) → is_blank bs ≡ false → is_nil bs ≡ false
      go [] h = cc
      go (b ∷ bs) h = refl

  body_of-not_nil : (e : E) (es : List E) → is_nil (body_of e es) ≡ false
  unfolding body_of
  body_of-not_nil e [] = to_vec-not_nil e
  body_of-not_nil e (f ∷ fs) = not_nil-append (codec.to_vec e) 10 (body_of f fs)

  trim-file : (e : E) (es : List E) → trim (file_of codec (e ∷ es)) ≡ body_of e es
  unfolding file_of body_of
  trim-file e [] = trim-line (codec.to_vec e) (law.one_line e)
  trim-file e (f ∷ fs) =
      let rest = trim-file f fs in
      let full : is_nil (trim (file_of codec (f ∷ fs))) ≡ false =
        ap is_nil rest ∙ body_of-not_nil f fs in
      let line = trim_newline (file_of codec (f ∷ fs)) full in
      trim-append (codec.to_vec e) (10 ∷ file_of codec (f ∷ fs)) (ap is_nil line)
      ∙ ap (λ x. codec.to_vec e ++ x) (line ∙ ap (λ x. 10 ∷ x) rest)

  split_last-body :
      (e : E) (es : List E) → (split_last (body_of e es)).1 ≡ codec.to_vec (last_of e es)
  unfolding body_of last_of
  split_last-body e [] =
      ap (λ (r : List ℕ × List ℕ). r.1) (split_last-inline (codec.to_vec e) (law.one_line e))
  split_last-body e (f ∷ fs) =
      ap (λ (r : List ℕ × List ℕ). r.1) (split_last-line (codec.to_vec e) (body_of f fs))
      ∙ split_last-body f fs

  last-file : (e : E) (es : List E) → last (file_of codec (e ∷ es)) ≡ some 10
  unfolding file_of
  last-file e [] = last-append (codec.to_vec e) 10 []
  last-file e (f ∷ fs) =
      ap last (sym (append_assoc (codec.to_vec e) (10 ∷ []) (file_of codec (f ∷ fs))))
      ∙ (to_rest (codec.to_vec e ++ 10 ∷ []) (file_of codec (f ∷ fs)) (file_not_nil f fs)
          ∙ last-file f fs)
    where
      file_not_nil : (e : E) (es : List E) → is_nil (file_of codec (e ∷ es)) ≡ false
      file_not_nil e es = not_nil-append (codec.to_vec e) 10 (file_of codec es)

      to_rest : (xs ys : List ℕ) → is_nil ys ≡ false → last (xs ++ ys) ≡ last ys
      to_rest xs [] h = absurd cc
      to_rest xs (y ∷ ys) h = last-append xs y ys

  repair_nil : repair codec (file_of codec []) ≡ file_of codec []
  unfolding repair file_of trim
  repair_nil = refl

  pub repair-file : (es : List E) → repair codec (file_of codec es) ≡ file_of codec es
  unfolding repair
  repair-file [] = repair_nil
  repair-file (e ∷ es) =
      rw
        (
          trim-file e es,
          body_of-not_nil e es,
          split_last-body e es,
          law.whole (last_of e es),
          last-file e es,
        )
        refl
