-- ===== src/Jsonl.antt =====
-- libslop/src/jsonl.rs: append-only files of JSON lines. A file is its bytes; they are taken to be
-- UTF-8, and white space beyond ASCII is not told apart from text. The codec is serde_json's: a
-- parameter, with the laws that the module relies on.
pub mod Crash
pub mod Recovery
use slopd.Base.{
  ℕ, Bool, true, false, not, ◌&&◌, ◌||◌, Option, none, some, List, [], ◌∷◌, ◌++◌, Result, ok, err,
  nat_eq, leb, take, length, ◌<◌, ◌≤◌, all, last, All, ◌≡◌, ◌≢◌, if◌then◌else◌,
}

abbrev pub is_newline : ℕ → Bool
is_newline b = nat_eq b 10 || nat_eq b 13

abbrev is_space : ℕ → Bool
is_space b = nat_eq b 32 || leb 9 b && leb b 13

abbrev pub is_blank : List ℕ → Bool
is_blank = all is_space

-- What serde_json does with a value of type `E`, and with any JSON value.
pub record Codec (E : Type 0) : Type 0 where
  pub to_vec : E → List ℕ
  pub from_str : List ℕ → Option E
  pub is_value : List ℕ → Bool

abbrev pub is_nil {ℓ} : {A : Type ℓ} → List A → Bool
is_nil [] = true
is_nil (x ∷ xs) = false

-- Without the line ends at the end.
unfoldable pub trim : List ℕ → List ℕ
trim [] = []
trim (b ∷ bs) = let rest = trim bs in if is_nil rest && is_newline b then [] else b ∷ rest

abbrev pub split_cons : ℕ → List ℕ × List ℕ → List ℕ × List ℕ
split_cons b ([], line) = if nat_eq b 10 then (b ∷ [], line) else ([], b ∷ line)
split_cons b (p ∷ ps, line) = (b ∷ p ∷ ps, line)

-- What precedes the last line, its line end included, and the last line.
unfoldable pub split_last : List ℕ → List ℕ × List ℕ
split_last [] = ([], [])
split_last (b ∷ bs) = split_cons b (split_last bs)

abbrev pub ends_line : Option ℕ → Bool
ends_line none = false
ends_line (some b) = nat_eq b 10

abbrev prepend : ℕ → List (List ℕ) → List (List ℕ)
prepend b [] = (b ∷ []) ∷ []
prepend b (l ∷ ls) = (b ∷ l) ∷ ls

abbrev pub starts_line_end : List ℕ → Bool
starts_line_end [] = false
starts_line_end (b ∷ bs) = nat_eq b 10

-- `BufRead::lines`: the line ends are "\n" and "\r\n".
unfoldable pub lines : List ℕ → List (List ℕ)
lines [] = []
lines (b ∷ bs) =
    let rest = lines bs in
    if nat_eq b 10
    then [] ∷ rest
    else if nat_eq b 13 && starts_line_end bs
    then rest
    else prepend b rest

module _ {E : Type 0} (codec : Codec E) where
  abbrev pub mend : List ℕ → List ℕ → List ℕ → List ℕ
  mend bytes before line =
      if codec.is_value line
      then (if ends_line (last bytes) then bytes else bytes ++ 10 ∷ [])
      else before

  unfoldable pub repair : List ℕ → List ℕ
  unfolding trim split_last
  repair bytes =
      let body = trim bytes in
      if is_nil body then bytes else mend bytes (split_last body).0 (split_last body).1

  unfoldable pub append : E → List ℕ → List ℕ
  append e bytes = bytes ++ (codec.to_vec e ++ 10 ∷ [])

  -- `append`, when `write_all` fails after `n` bytes of the line.
  unfoldable pub append_cut : ℕ → E → List ℕ → List ℕ
  append_cut n e bytes = bytes ++ take n (codec.to_vec e ++ 10 ∷ [])

  abbrev pub cons_event : E → Result (Unit {0}) (List E) → Result (Unit {0}) (List E)
  cons_event e (ok es) = ok (e ∷ es)
  cons_event e (err x) = err x

  -- A line that does not parse ends the replay if it is the last, and is an error before that.
  unfoldable pub replay_lines : List (List ℕ) → Result (Unit {0}) (List E)
  replay_lines [] = ok []
  replay_lines (l ∷ ls) =
      let rest = replay_lines ls in
      if is_blank l then rest else elim (codec.from_str l) [
        | some e ↦ cons_event e rest
        | none ↦ if is_nil ls then ok [] else err tt
      ]

  unfoldable pub replay : List ℕ → Result (Unit {0}) (List E)
  unfolding lines replay_lines
  replay bytes = replay_lines (lines bytes)

  -- The laws of serde_json: text without line ends, a round trip, and no proper prefix of an
  -- object's text that is itself a value.
  pub record IsLawful : Type 0 where
    pub one_line : (e : E) → All (λ b. is_newline b ≡ false) (codec.to_vec e)
    pub not_blank : (e : E) → is_blank (codec.to_vec e) ≡ false
    pub read_back : (e : E) → codec.from_str (codec.to_vec e) ≡ some e
    pub whole : (e : E) → codec.is_value (codec.to_vec e) ≡ true
    pub no_prefix :
        (e : E) (part rest : List ℕ)
        → codec.to_vec e ≡ part ++ rest
        → rest ≢ []
        → codec.is_value part ≡ false

  -- No JSON text of an event is some bytes of another's text, all of them or fewer, and a whole text
  -- after them: an object is not closed before its last byte, and nothing may follow it.
  abbrev pub RejectsJoined : Type 0
  RejectsJoined =
      (e f : E) (n : ℕ)
      → 0 < n
      → n ≤ length (codec.to_vec e)
      → codec.from_str (take n (codec.to_vec e) ++ codec.to_vec f) ≡ none

  -- The file that appending the events in turn gives.
  unfoldable pub file_of : List E → List ℕ
  file_of [] = []
  file_of (e ∷ es) = codec.to_vec e ++ 10 ∷ file_of es
