-- ===== src/Examples/JournalRuns.antt =====
-- The journal at concrete histories.
use slopd.Base.{
  ℕ, String, Bool, true, false, Option, none, some, List, [], ◌∷◌, ◌≡◌, ◌≢◌, ◌↔◌, refl, map, insert,
  sort_by, insert_by, inl, inr, arith, eq_iff, ok,
}
use slopd.Base
use slopd.Journal.Event.{generation_key_eq, generation_eq}
use slopd.Pane.State.{from_str, busy_tool_use}
use slopd.Pane.Recovery.{recovery, same_recovery_checkpoint, same_recovery_checkpoint_iff}
use slopd.Journal.Replay.{GenerationState, empty_state, read_generation}
use slopd.Journal.Durable.{Saved, OldOrNew, checkpoint_panes-Saved}
use slopd.Journal.Unchanged.{checkpoint_panes-repeated}
use slopd.Compaction.{compacted_events}
use slopd.Compaction.Reading.{IsReadBack, read-compacted_events}
use slopd.Journal.Io.{Journal, Holds, ◌>>=◌, append_event, sync_data, attempt}
use slopd.Journal.Writer.{
  header, open_at, record_pane, record_panes, write_checkpoint, checkpoint_panes, recoverable,
}
use slopd.Journal.Synced.{Synced}
use slopd.Journal.Directory.{IsKeyed, insert-IsKeyed}
use slopd.Pane.Info.{PaneInfo}
use slopd.Journal.History.{open_at-RecoversThrough}
use slopd.Journal.Calls.{Call, saves, buries, switches, RecoversThrough, AreDistinct}
use slopd.Examples.Data.{a_pane, a_grave, first_key, second_key, first_journal}

first-Synced : Synced first_journal
unfolding insert Base.get read_generation generation_eq
first-Synced = record { same_key = refl; same_checkpoint = refl; same_versions = λ id. refl }

empty-IsKeyed : IsKeyed []
unfolding Base.get
empty-IsKeyed = record { file = λ key es p. cc }

first-IsKeyed : IsKeyed first_journal.dir
unfolding read_generation
first-IsKeyed = insert-IsKeyed [] first_key (header first_key 5 ∷ []) (inr refl) empty-IsKeyed

abbrev calls : List Call
calls =
    saves 6 (a_pane "%2" "s2" ∷ a_pane "%1" "s1" ∷ [])
    ∷ buries (a_grave "g1" 7)
    ∷ switches second_key 8
    ∷ saves 9 (a_pane "%1" "s3" ∷ [])
    ∷ []

ids_differ : ◌≢◌ {A = String} "%2" "%1"
ids_differ e = ground (arith, eq_iff "%2" "%1")

calls-AreDistinct : AreDistinct calls
calls-AreDistinct = (((λ e. ids_differ e, tt), (tt, tt)), (tt, (tt, ((tt, tt), tt))))

open_at-RecoversThrough_example :
    Holds (λ _. RecoversThrough calls) (λ s. IsKeyed s.dir) (open_at first_key 5 first_journal)
open_at-RecoversThrough_example =
    open_at-RecoversThrough first_key 5 calls first_journal calls-AreDistinct first-IsKeyed

checkpoint_panes-Saved_example :
    Holds
      (Saved (recoverable (a_pane "%2" "s2" ∷ a_pane "%1" "s1" ∷ [])))
      (OldOrNew [] (recoverable (a_pane "%2" "s2" ∷ a_pane "%1" "s1" ∷ [])))
      (checkpoint_panes 6 (a_pane "%2" "s2" ∷ a_pane "%1" "s1" ∷ []) first_journal)
checkpoint_panes-Saved_example =
    checkpoint_panes-Saved 6 (a_pane "%2" "s2" ∷ a_pane "%1" "s1" ∷ []) first_journal
      ((λ e. ids_differ e, tt), (tt, tt)) first-Synced

abbrev a_state : GenerationState
a_state = record empty_state {
  key = some first_key;
  started_at = 5;
  checkpoint = a_pane "%1" "s1" ∷ [];
  has_checkpoint = true;
  graves = a_grave "g1" 7 ∷ a_grave "g2" 9 ∷ [];
  resolved_sources = second_key ∷ [];
}

other_session : generation_eq first_key second_key ≡ false
unfolding generation_eq
other_session = refl

read-compacted_events_example :
    IsReadBack
      ("g2" ∷ [])
      first_key
      a_state
      (read_generation (compacted_events 20 ("g2" ∷ []) first_key a_state))
read-compacted_events_example =
    read-compacted_events 20 ("g2" ∷ []) first_key a_state (tt, tt) (λ e. cc) (other_session, tt)

same_recovery_checkpoint_iff_example :
    (same_recovery_checkpoint (a_pane "%1" "s1" ∷ []) (a_pane "%1" "s2" ∷ []) ≡ true)
    ↔ (map recovery (a_pane "%1" "s1" ∷ []) ≡ map recovery (a_pane "%1" "s2" ∷ []))
same_recovery_checkpoint_iff_example =
    same_recovery_checkpoint_iff (a_pane "%1" "s1" ∷ []) (a_pane "%1" "s2" ∷ [])

tool_use_read : from_str "busy_tool_use" ≡ some busy_tool_use
unfolding from_str
tool_use_read = refl

abbrev touched : PaneInfo
touched = record (a_pane "%1" "s1") { last_active = 99 }

recovered_alike :
    map recovery (recoverable (touched ∷ [])) ≡ map recovery (recoverable (a_pane "%1" "s1" ∷ []))
unfolding recoverable sort_by insert_by
recovered_alike = refl

abbrev after_save : Journal
after_save = (checkpoint_panes 6 (a_pane "%1" "s1" ∷ []) first_journal).1

saved_one : checkpoint_panes 6 (a_pane "%1" "s1" ∷ []) first_journal ≡ (ok 1, after_save)
unfolding checkpoint_panes write_checkpoint recoverable sort_by insert_by ◌>>=◌ record_panes
    record_pane append_event sync_data attempt same_recovery_checkpoint Base.get
saved_one = refl

checkpoint_panes-repeated_example :
    (checkpoint_panes 30 (touched ∷ []) (record after_save { faults = true ∷ [] })).1.dir
    ≡ after_save.dir
checkpoint_panes-repeated_example =
    checkpoint_panes-repeated 6 30 (a_pane "%1" "s1" ∷ []) (touched ∷ []) 1 first_journal after_save
      (true ∷ []) saved_one recovered_alike
