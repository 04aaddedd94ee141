-- ===== src/Journal/Io.antt =====
-- slopd/src/journal.rs: the journal as a state, its files, and the writes that may fail. A failed
-- write leaves its file as it was; the caller's `?` ends the operation there.
use slopd.Base.{
  String, Bool, true, false, List, [], ◌∷◌, ◌++◌, Map, get, insert, Result, ok, err, unwrap_or,
  if◌then◌else◌,
}
use slopd.Pane.Info.{PaneInfo}
use slopd.Journal.Event.{GenerationKey, generation_key_eq, JournalEvent}

-- `dir` holds the files under `generations/`, `faults` what the coming writes and syncs meet: `true`
-- is a failure. The open file is the one of the current generation.
pub record Journal : Type 0 where
  pub dir : Map GenerationKey (List JournalEvent)
  pub generation : GenerationKey
  pub pane_versions : Map String PaneInfo
  pub checkpoint : List PaneInfo
  pub faults : List Bool

pub data JournalError : Type 0 where
  io_error bad_boot generation_missing no_such_generation invalid_cursor : JournalError
  no_match ambiguous already_revived : JournalError

abbrev pub Io : Type 0 → Type 0
Io A = Journal → Result JournalError A × Journal

abbrev pub continue :
    {A B : Type 0} → Result JournalError A × Journal → (A → Io B) → Result JournalError B × Journal
continue (ok a, s) f = f a s
continue (err e, s) f = (err e, s)

module _ {A B : Type 0} where
  infixl 5 ◌>>=◌ ◌>>◌
  unfoldable pub ◌>>=◌ : Io A → (A → Io B) → Io B
  ◌>>=◌ m f s = continue (m s) f

  abbrev pub ◌>>◌ : Io A → Io B → Io B
  m >> k = m >>= λ _. k

abbrev pub pure : {A : Type 0} → A → Io A
pure a s = (ok a, s)

abbrev pub modify : (Journal → Journal) → Io (Unit {0})
modify f s = (ok tt, f s)

-- The outcome of the next write or sync.
unfoldable pub attempt :
    List Bool
    → (List Bool → Journal)
    → (List Bool → Journal)
    → Result JournalError (Unit {0}) × Journal
attempt [] done failed = (ok tt, done [])
attempt (b ∷ rest) done failed = if b then (err io_error, failed rest) else (ok tt, done rest)

abbrev pub current_file : Journal → List JournalEvent
current_file s = unwrap_or (get s.dir s.generation) []

abbrev pub write_event : JournalEvent → Journal → Journal
write_event e s = record s { dir = insert s.generation (current_file s ++ e ∷ []) s.dir }

unfoldable pub append_event : JournalEvent → Io (Unit {0})
append_event e s =
    attempt s.faults (λ rest. record (write_event e s) { faults = rest })
      (λ rest. record s { faults = rest })

unfoldable pub sync_data : Io (Unit {0})
sync_data s =
    attempt s.faults (λ rest. record s { faults = rest }) (λ rest. record s { faults = rest })

-- What holds after an action: `Q` of its value and state, or `E` of the state after an error.
abbrev pub Holds :
    {A : Type 0}
    → (A → Journal → Type 0)
    → (Journal → Type 0)
    → Result JournalError A × Journal
    → Type 0
Holds Q E (ok a, s) = Q a s
Holds Q E (err e, s) = E s

pub record Triple {A : Type 0} (P : Journal → Type 0) (m : Io A) (Q : A → Journal → Type 0)
    (E : Journal → Type 0) : Type 0 where
  pub run : (s : Journal) → P s → Holds Q E (m s)

module _ {A B : Type 0} (Q : A → Journal → Type 0) (R : B → Journal → Type 0)
    (E : Journal → Type 0) where
  Holds-continue :
      (f : A → Io B) (r : Result JournalError A × Journal)
      → ((a : A) → Triple (Q a) (f a) R E)
      → Holds Q E r
      → Holds R E (continue r f)
  Holds-continue f (ok a, s) kf h = (kf a).run s h
  Holds-continue f (err e, s) kf h = h

  pub Triple-bind :
      (P : Journal → Type 0) (m : Io A) (f : A → Io B)
      → Triple P m Q E
      → ((a : A) → Triple (Q a) (f a) R E)
      → Triple P (m >>= f) R E
  unfolding ◌>>=◌
  Triple-bind P m f km kf = record { run = λ s h. Holds-continue f (m s) kf (km.run s h) }

module _ {A : Type 0} (Q R : A → Journal → Type 0) (E F : Journal → Type 0) where
  pub Holds-weaken :
      (r : Result JournalError A × Journal)
      → ((a : A) (s : Journal) → Q a s → R a s)
      → ((s : Journal) → E s → F s)
      → Holds Q E r
      → Holds R F r
  Holds-weaken (ok a, s) f g h = f a s h
  Holds-weaken (err e, s) f g h = g s h

  pub Triple-weaken :
      (P O : Journal → Type 0) (m : Io A)
      → ((s : Journal) → O s → P s)
      → ((a : A) (s : Journal) → Q a s → R a s)
      → ((s : Journal) → E s → F s)
      → Triple P m Q E
      → Triple O m R F
  Triple-weaken P O m e f g t = record { run = λ s h. Holds-weaken (m s) f g (t.run s (e s h)) }

module _ {A : Type 0} (R S : A → Journal → Type 0) (E F : Journal → Type 0) where
  -- Two facts about one action.
  both_Hold :
      (r : Result JournalError A × Journal)
      → Holds R E r
      → Holds S F r
      → Holds (λ a s. R a s × S a s) (λ s. E s × F s) r
  both_Hold (ok a, s) h k = (h, k)
  both_Hold (err e, s) h k = (h, k)

  pub Triple-both :
      (P Q : Journal → Type 0) (m : Io A)
      → Triple P m R E
      → Triple Q m S F
      → Triple (λ s. P s × Q s) m (λ a s. R a s × S a s) (λ s. E s × F s)
  Triple-both P Q m t u = record { run = λ s h. both_Hold (m s) (t.run s h.0) (u.run s h.1) }

module _ (Q : Unit {0} → Journal → Type 0) (E : Journal → Type 0) where
  pub Holds-attempt :
      (faults : List Bool) (done failed : List Bool → Journal)
      → ((rest : List Bool) → Q tt (done rest))
      → ((rest : List Bool) → E (failed rest))
      → Holds Q E (attempt faults done failed)
  unfolding attempt
  Holds-attempt [] done failed q e = q []
  Holds-attempt (true ∷ rest) done failed q e = e rest
  Holds-attempt (false ∷ rest) done failed q e = q rest
