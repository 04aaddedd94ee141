-- ===== src/Examples/JsonlRuns.antt =====
-- A file of JSON lines whose only event is the empty object.
use slopd.Base.{
  zero, suc, arith, ℕ, Bool, false, none, some, List, [], ◌∷◌, ◌++◌, ok, err, nat_eq, ◌≡◌, ◌≢◌,
  refl, if◌then◌else◌, ◌&&◌,
}
use slopd.Jsonl.{Codec, IsLawful, repair, append, append_cut, RejectsJoined, replay, file_of}
use slopd.Jsonl.Recovery.{replay-repair, replay-spoiled}

-- `{}`
abbrev is_object : List ℕ → Bool
is_object (a ∷ b ∷ []) = nat_eq a 123 && nat_eq b 125
is_object _ = false

abbrev a_codec : Codec (Unit {0})
a_codec = record {
  to_vec = λ e. 123 ∷ 125 ∷ [];
  from_str = λ bs. if is_object bs then some tt else none;
  is_value = is_object;
}

cut_object :
    (part rest : List ℕ) → 123 ∷ 125 ∷ [] ≡ part ++ rest → rest ≢ [] → is_object part ≡ false
cut_object [] rest h k = refl
cut_object (a ∷ []) rest h k = refl
cut_object (a ∷ b ∷ []) rest h k = absurd (k (tail_nil rest h))
  where
    tail_nil : (r : List ℕ) → 123 ∷ 125 ∷ [] ≡ a ∷ b ∷ r → r ≡ []
    tail_nil r e = cc
cut_object (a ∷ b ∷ c ∷ part) rest h k = refl

a_codec-IsLawful : IsLawful a_codec
a_codec-IsLawful = record {
  one_line = λ e. (refl, (refl, tt));
  not_blank = λ e. refl;
  read_back = λ e. refl;
  whole = λ e. refl;
  no_prefix = λ e. cut_object;
}

some_rest : ◌≢◌ {A = List ℕ} (125 ∷ []) []
some_rest e = cc

replay-repair_example :
    (replay a_codec (repair a_codec (file_of a_codec (tt ∷ []) ++ 123 ∷ [])) ≡ ok (tt ∷ []))
    × (replay a_codec (append a_codec tt (repair a_codec (file_of a_codec (tt ∷ []) ++ 123 ∷ [])))
        ≡ ok (tt ∷ tt ∷ []))
replay-repair_example =
    replay-repair a_codec a_codec-IsLawful (tt ∷ []) tt tt (123 ∷ []) (125 ∷ []) refl some_rest

a_codec-RejectsJoined : RejectsJoined a_codec
a_codec-RejectsJoined e f zero h k = absurd (omega arith)
a_codec-RejectsJoined e f (suc zero) h k = refl
a_codec-RejectsJoined e f (suc (suc zero)) h k = refl
a_codec-RejectsJoined e f (suc (suc (suc n))) h k = absurd (omega (arith, k))

replay-spoiled_example :
    replay a_codec
      (append a_codec tt (append a_codec tt (append_cut a_codec 1 tt (file_of a_codec (tt ∷ [])))))
    ≡ err tt
replay-spoiled_example =
    replay-spoiled a_codec a_codec-IsLawful a_codec-RejectsJoined (tt ∷ []) tt tt tt 1 (omega arith)
      (omega arith)
