-- ===== src/Journal/Directory.antt =====
-- slopd/src/journal.rs: the directory of the generation files, and the headers that they begin with.
use slopd.Base.{
  Option, none, some, List, [], ◌≡◌, ◌⊎◌, inl, inr, refl, Map, get, insert, get-insert, unwrap_or,
  arith,
}
use slopd.Journal.Event.{GenerationKey, generation_eq_iff, generation_key_eq, JournalEvent}
use slopd.Journal.Replay.{read_generation}

abbrev pub Dir : Type 0
Dir = Map GenerationKey (List JournalEvent)

-- A file as the directory may hold it under `key`.
abbrev pub FitsKey : GenerationKey → List JournalEvent → Type 0
FitsKey key es = (es ≡ []) ⊎ ((read_generation es).key ≡ some key)

pub record IsKeyed (dir : Dir) : Type 0 where
  pub file : (key : GenerationKey) (es : List JournalEvent) → get dir key ≡ some es → FitsKey key es

insert_cases :
    (dir : Dir) (k key : GenerationKey) (new es : List JournalEvent)
    → get (insert k new dir) key ≡ some es
    → ((k ≡ key) × (new ≡ es)) ⊎ (get dir key ≡ some es)
insert_cases dir k key new es h = ground (arith, get-insert k key new dir, generation_eq_iff k key)

pub insert-IsKeyed :
    (dir : Dir) (k : GenerationKey) (es : List JournalEvent)
    → FitsKey k es
    → IsKeyed dir
    → IsKeyed (insert k es dir)
insert-IsKeyed dir k es fits h = record {
  file = λ key fs p. elim (insert_cases dir k key es fs p) [
    | inl (e, f) ↦ rw (← e, ← f) fits
    | inr old ↦ h.file key fs old
  ];
}

-- What the directory gives for a key, a missing file read as an empty one.
pub read-FitsKey :
    (dir : Dir) (key : GenerationKey) → IsKeyed dir → FitsKey key (unwrap_or (get dir key) [])
read-FitsKey dir key h = go (get dir key) refl
  where
    go : (o : Option (List JournalEvent)) → get dir key ≡ o → FitsKey key (unwrap_or o [])
    go none e = inl refl
    go (some es) e = h.file key es e
