-- ===== src/Journal/Opening.antt =====
-- slopd/src/journal.rs: `open_at` and the invariant of the journal.
use slopd.Base.{
  ℕ, Bool, true, false, Option, none, some, List, [], ◌∷◌, ◌++◌, ◌≡◌, refl, sym, ap, ◌∙◌, get,
  insert, string_eq, map_option, unwrap_or, map, if◌then◌else◌, inl, inr,
}
use slopd.Pane.Recovery.{recovery}
use slopd.Journal.Event.{GenerationKey, generation_key_eq, JournalEvent}
use slopd.Journal.Replay.{GenerationState, read_generation, apply_event, replay_from}
use slopd.Journal.Io.{
  Journal, Triple, Triple-bind, Holds-attempt, ◌>>=◌, pure, current_file, write_event, append_event,
  sync_data,
}
use slopd.Journal.Writer.{is_empty, open_generation, open_file, open_at, header, handle}
use slopd.Journal.Synced.{Synced, current_file-write_event}
use slopd.Journal.Directory.{IsKeyed, insert-IsKeyed, read-FitsKey}

-- The handle is on `key`, over a keyed directory.
record Handled (key : GenerationKey) (j : Journal) : Type 0 where
  keyed : IsKeyed j.dir
  on_key : j.generation ≡ key

handle-IsKeyed : (key : GenerationKey) (j : Journal) → IsKeyed j.dir → IsKeyed (handle key j).dir
handle-IsKeyed key j h = go (get j.dir key)
  where
    go :
        (o : Option (List JournalEvent))
        → IsKeyed (elim o [ none ↦ insert key [] j.dir | some _ ↦ j.dir ])
    go none = insert-IsKeyed j.dir key [] (inl refl) h
    go (some es) = h

abbrev DirKeyed : Journal → Type 0
DirKeyed j = IsKeyed j.dir

open_file-Handled :
    (key : GenerationKey) → Triple DirKeyed (open_file key) (λ _. Handled key) DirKeyed
unfolding open_file
open_file-Handled key = record {
  run = λ j h.
      Holds-attempt (λ _. Handled key) DirKeyed j.faults _ _
        (λ rest. record { keyed = handle-IsKeyed key j h; on_key = refl }) (λ rest. h);
}

-- The current file has its header.
abbrev Headed : GenerationKey → Journal → Type 0
Headed key j = Handled key j × ((read_generation (current_file j)).key ≡ some key)

-- A header alone stands for its generation.
header_key : (key : GenerationKey) (t : ℕ) → (read_generation (header key t ∷ [])).key ≡ some key
unfolding read_generation replay_from apply_event
header_key key t = refl

is_empty-eq : (es : List JournalEvent) → is_empty es ≡ true → es ≡ []
is_empty-eq [] h = refl
is_empty-eq (e ∷ es) h = cc

write_header :
    (key : GenerationKey) (t : ℕ) (j : Journal)
    → Handled key j
    → is_empty (current_file j) ≡ true
    → Headed key (write_event (header key t) j)
write_header key t j h e =
    let file : current_file j ++ header key t ∷ [] ≡ header key t ∷ [] =
      ap (λ (es : List JournalEvent). es ++ header key t ∷ []) (is_empty-eq (current_file j) e) in
    let reads : (read_generation (current_file j ++ header key t ∷ [])).key ≡ some key =
      ap (λ (es : List JournalEvent). (read_generation es).key) file ∙ header_key key t in
    (
      record {
        keyed = insert-IsKeyed j.dir j.generation _ (inr (reads ∙ ap some (sym h.on_key))) h.keyed;
        on_key = h.on_key;
      },
      ap (λ (es : List JournalEvent). (read_generation es).key)
            (current_file-write_event (header key t) j)
          ∙ reads,
    )

Headed-already :
    (key : GenerationKey) (j : Journal)
    → Handled key j
    → is_empty (current_file j) ≡ false
    → Headed key j
Headed-already key j h e = elim (read-FitsKey j.dir j.generation h.keyed) [
  | inl none_written ↦ absurd_file (current_file j) none_written e
  | inr k ↦ (h, k ∙ ap some h.on_key)
]
  where
    absurd_file : (es : List JournalEvent) → es ≡ [] → is_empty es ≡ false → Headed key j
    absurd_file [] p q = cc
    absurd_file (x ∷ es) p q = cc

start_file :
    (key : GenerationKey) (t : ℕ) (new : Bool)
    → Triple
        (λ j. Handled key j × (is_empty (current_file j) ≡ new))
        (if new then (append_event (header key t) >>= λ _. sync_data) else pure tt)
        (λ _. Headed key)
        DirKeyed
unfolding append_event sync_data
start_file key t true =
    Triple-bind (λ _. Headed key) (λ _. Headed key) DirKeyed _ _ _
      (record {
        run = λ j h.
            Holds-attempt (λ _. Headed key) DirKeyed j.faults _ _
              (λ rest.
                let w = write_header key t j h.0 h.1 in
                (record { keyed = w.0.keyed; on_key = w.0.on_key }, w.1))
              (λ rest. h.0.keyed);
      })
      (λ _. record {
        run = λ j h.
            Holds-attempt (λ _. Headed key) DirKeyed j.faults _ _
              (λ rest. (record { keyed = h.0.keyed; on_key = h.0.on_key }, h.1))
              (λ rest. h.0.keyed);
      })
start_file key t false = record { run = λ j h. Headed-already key j h.0 h.1 }

-- The state that was read is the current file's.
abbrev Loaded : GenerationKey → GenerationState → Journal → Type 0
Loaded key st j = Headed key j × (st ≡ read_generation (current_file j))

open_generation-Loaded :
    (key : GenerationKey) (t : ℕ) → Triple DirKeyed (open_generation key t) (Loaded key) DirKeyed
unfolding open_generation
open_generation-Loaded key t =
    Triple-bind (λ _. Handled key) (Loaded key) DirKeyed DirKeyed _ _ (open_file-Handled key)
      (λ _.
        Triple-bind (λ new j. Handled key j × (is_empty (current_file j) ≡ new)) (Loaded key)
          DirKeyed _ _ _ (record { run = λ j h. (h, refl) })
          (λ new.
            Triple-bind (λ _. Headed key) (Loaded key) DirKeyed _ _ _ (start_file key t new)
              (λ _. record { run = λ j h. (h, refl) })))

-- What opening leaves: agreement with the file, in a keyed directory.
abbrev pub Opened : GenerationKey → Journal → Type 0
Opened key j = Synced j × IsKeyed j.dir × (j.generation ≡ key)

pub open_at-Opened :
    (key : GenerationKey) (t : ℕ) → Triple DirKeyed (open_at key t) (λ _. Opened key) DirKeyed
unfolding open_at
open_at-Opened key t =
    Triple-bind (Loaded key) (λ _. Opened key) DirKeyed DirKeyed _ _ (open_generation-Loaded key t)
      (λ st. record {
        run = λ j h. (
          rw (ap (λ (k : GenerationKey). unwrap_or (get j.dir k) []) (sym h.0.0.on_key)) (record {
            same_key = h.0.1;
            same_checkpoint = ap (λ (s : GenerationState). map recovery s.checkpoint) (sym h.1);
            same_versions = λ id.
                ap (λ (s : GenerationState). map_option recovery (get s.pane_versions id))
                  (sym h.1);
          }),
          h.0.0.keyed,
          refl,
        );
      })
