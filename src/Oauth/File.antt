-- ===== src/Oauth/File.antt =====
-- libslop/src/jsonl.rs, as slopd-mcp/src/oauth.rs uses it: a file of events by its lines, with what an
-- append that fails leaves behind the last line end. The module Jsonl has the same over bytes: that some bytes of
-- an event are no JSON value, and that some bytes of one with a whole one behind them are none, are the
-- laws `no_prefix` and `RejectsJoined` there. A repair that fails makes the opening fail, and is left out.
use slopd.Base.{Bool, true, false, List, [], ◌∷◌, ◌++◌, Result, ok, err, ◌≡◌, refl, sym, ap, ◌∙◌}

pub data Line (E : Type 0) : Type 0 where
  whole : E → Line E
  spoiled : Line E

-- Nothing, bytes that are no JSON value, or an event without its line end.
pub data Tail (E : Type 0) : Type 0 where
  clean part : Tail E
  unended : E → Tail E

pub record EventFile (E : Type 0) : Type 0 where
  pub lines : List (Line E)
  pub tail : Tail E

-- What a write or a sync does: all, nothing, a part of the event, or all of it but the line end.
pub data Outcome : Type 0 where
  works fails tears unends : Outcome

abbrev pub is_works : Outcome → Bool
is_works works = true
is_works _ = false

module _ {E : Type 0} where
  abbrev line_behind : E → Tail E → Line E
  line_behind e clean = whole e
  line_behind e part = spoiled
  line_behind e (unended f) = spoiled

  abbrev text_behind : E → Tail E → Tail E
  text_behind e clean = unended e
  text_behind e part = part
  text_behind e (unended f) = part

  -- `append`, by what becomes of its write.
  abbrev pub written : Outcome → E → EventFile E → EventFile E
  written works e f = record { lines = f.lines ++ line_behind e f.tail ∷ []; tail = clean }
  written fails e f = f
  written tears e f = record { lines = f.lines; tail = part }
  written unends e f = record { lines = f.lines; tail = text_behind e f.tail }

  unfoldable pub drop_spoiled : List (Line E) → List (Line E)
  drop_spoiled [] = []
  drop_spoiled (whole e ∷ ls) = whole e ∷ drop_spoiled ls
  drop_spoiled (spoiled ∷ []) = []
  drop_spoiled (spoiled ∷ l ∷ ls) = spoiled ∷ drop_spoiled (l ∷ ls)

  -- The lines after `repair`, which leaves none behind the last line end.
  abbrev pub repaired_lines : List (Line E) → Tail E → List (Line E)
  repaired_lines ls clean = drop_spoiled ls
  repaired_lines ls part = ls
  repaired_lines ls (unended e) = ls ++ whole e ∷ []

  unfoldable pub repaired : EventFile E → EventFile E
  unfolding drop_spoiled
  repaired f = record { lines = repaired_lines f.lines f.tail; tail = clean }

  abbrev with_event : E → Result (Unit {0}) (List E) → Result (Unit {0}) (List E)
  with_event e (ok es) = ok (e ∷ es)
  with_event e (err x) = err x

  -- `replay`: a malformed line ends it if it is the last, and is an error before that.
  unfoldable pub replayed : List (Line E) → Result (Unit {0}) (List E)
  replayed [] = ok []
  replayed (whole e ∷ ls) = with_event e (replayed ls)
  replayed (spoiled ∷ []) = ok []
  replayed (spoiled ∷ l ∷ ls) = err tt

  -- No append came behind the bytes of one that failed.
  abbrev pub IsWhole : List (Line E) → Type 0
  IsWhole [] = Unit
  IsWhole (whole e ∷ ls) = IsWhole ls
  IsWhole (spoiled ∷ ls) = ⊥

  abbrev pub events : List (Line E) → List E
  events [] = []
  events (whole e ∷ ls) = e ∷ events ls
  events (spoiled ∷ ls) = events ls

  pub events-append :
      (ls : List (Line E)) (e : E) → events (ls ++ whole e ∷ []) ≡ events ls ++ e ∷ []
  events-append [] e = refl
  events-append (whole f ∷ ls) e = ap (◌∷◌ f) (events-append ls e)
  events-append (spoiled ∷ ls) e = events-append ls e

  pub IsWhole-append : (ls : List (Line E)) (l : Line E) → IsWhole (ls ++ l ∷ []) → IsWhole ls
  IsWhole-append [] l h = tt
  IsWhole-append (whole e ∷ ls) l h = IsWhole-append ls l h
  IsWhole-append (spoiled ∷ ls) l h = h

  pub spoiled_not-IsWhole : (ls : List (Line E)) → ¬ IsWhole (ls ++ spoiled ∷ [])
  spoiled_not-IsWhole [] h = h
  spoiled_not-IsWhole (whole e ∷ ls) h = spoiled_not-IsWhole ls h
  spoiled_not-IsWhole (spoiled ∷ ls) h = h

  pub IsWhole-whole : (ls : List (Line E)) (e : E) → IsWhole ls → IsWhole (ls ++ whole e ∷ [])
  IsWhole-whole [] e h = tt
  IsWhole-whole (whole f ∷ ls) e h = IsWhole-whole ls e h
  IsWhole-whole (spoiled ∷ ls) e h = h

  pub drop_spoiled-whole : (ls : List (Line E)) → IsWhole ls → drop_spoiled ls ≡ ls
  unfolding drop_spoiled
  drop_spoiled-whole [] h = refl
  drop_spoiled-whole (whole e ∷ ls) h = ap (◌∷◌ (whole e)) (drop_spoiled-whole ls h)
  drop_spoiled-whole (spoiled ∷ ls) h = absurd h

  pub replayed-whole : (ls : List (Line E)) → IsWhole ls → replayed ls ≡ ok (events ls)
  unfolding replayed
  replayed-whole [] h = refl
  replayed-whole (whole e ∷ ls) h = ap (with_event e) (replayed-whole ls h)
  replayed-whole (spoiled ∷ ls) h = absurd h

  -- What reads back is what the lines hold.
  pub replayed-events :
      (ls : List (Line E)) (es : List E) → IsWhole ls → replayed ls ≡ ok es → events ls ≡ es
  replayed-events ls es h k = ok_path (sym (replayed-whole ls h) ∙ k)
    where
      ok_path : {x y : List E} → ◌≡◌ {A = Result (Unit {0}) (List E)} (ok x) (ok y) → x ≡ y
      ok_path e = cc
