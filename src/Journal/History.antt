-- ===== src/Journal/History.antt =====
-- slopd/src/journal.rs: the operations of the journal in sequences of calls.
use slopd.Base.{
  ℕ, String, Option, List, [], ◌∷◌, refl, sym, ap, ◌∙◌, get, map, Map, map_option, string_eq,
  unwrap_or, subst, ◌≡◌, Result, ok, err, Bool-cases, ◌⊎◌, inl, inr,
}
use slopd.Pane.Info.{PaneInfo}
use slopd.Pane.Recovery.{recovery}
use slopd.Journal.Event.{GenerationKey, generation_eq, generation_key_eq, JournalEvent}
use slopd.Journal.Replay.{read_generation}
use slopd.Journal.Io.{
  Journal, JournalError, Io, Triple, Triple-bind, Triple-weaken, Triple-both, Holds, Holds-weaken,
}
use slopd.Journal.Writer.{recoverable, checkpoint_panes, open_at, switch_generation, back_on_error}
use slopd.Journal.Synced.{Synced}
use slopd.Journal.Distinct.{IsDistinct}
use slopd.Journal.Directory.{IsKeyed}
use slopd.Journal.Durable.{OldOrNew, Saved, checkpoint_panes-Triple}
use slopd.Journal.Recording.{record_destroyed-Synced, record_revived-Synced, resolve_restore-Synced}
use slopd.Journal.Keyed.{
  KeyedAt, checkpoint_panes-KeyedAt, record_destroyed-KeyedAt, record_revived-KeyedAt,
  resolve_restore-KeyedAt,
}
use slopd.Journal.Opening.{Opened, open_at-Opened}
use slopd.Journal.Switching.{IsKept, open_at-IsKept}
use slopd.Journal.Unchanged.{
  Remembers, Leaves, record_destroyed-Leaves, record_revived-Leaves, resolve_restore-Leaves,
}
use slopd.Journal.Calls.{
  Call, saves, buries, revives, resolves, switches, exec, IsDistinctCall, AreDistinct, Recovers,
  IsSound, headed, Synced-Recovers, keep_live-Recovers, HasLeft, Interrupted, RecoversThrough,
}

kept-Synced :
    (old s : Journal)
    → Synced old
    → IsKept old s
    → Synced (record s { generation = old.generation })
kept-Synced old s h k = record {
  same_key =
      ap (λ (o : Option (List JournalEvent)). (read_generation (unwrap_or o [])).key) k.file
      ∙ h.same_key;
  same_checkpoint =
      ap
        (λ (o : Option (List JournalEvent)).
          map recovery (read_generation (unwrap_or o [])).checkpoint)
        k.file
      ∙ (h.same_checkpoint ∙ ap (map recovery) (sym k.checkpoint));
  same_versions = λ id.
      ap
        (λ (o : Option (List JournalEvent)).
          map_option recovery (get (read_generation (unwrap_or o [])).pane_versions id))
        k.file
      ∙ (h.same_versions id
          ∙ ap (λ (m : Map String PaneInfo). map_option recovery (get m id)) (sym k.versions));
}

switch_outcome :
    (key : GenerationKey) (old : Journal)
    → IsSound old
    → (r : Result JournalError (Unit {0}) × Journal)
    → Holds (λ _. Opened key) (λ j. IsKeyed j.dir) r
    → Holds (λ _ _. Unit {0}) (IsKept old) r
    → Holds (λ _ s. Unit × IsSound s) (Recovers old.checkpoint) (back_on_error old.generation r)
switch_outcome key old h (ok u, s) o k = (tt, record { synced = o.0; keyed = o.1 })
switch_outcome key old h (err e, s) o k =
    let back : Synced (record s { generation = old.generation }) = kept-Synced old s h.synced k in
    subst (λ panes. Recovers panes (record s { generation = old.generation })) k.checkpoint
      (Synced-Recovers (record s { generation = old.generation })
        (record { keyed = o; headed = back.same_key }) back)

-- What a call does, from a sound journal.
abbrev ExecSound : Call → Journal → Type 0
ExecSound c j =
    Holds (λ _ s. HasLeft c j.checkpoint s × IsSound s) (Interrupted c j.checkpoint) (exec c j)

switch_generation-Sound :
    (key : GenerationKey) (t : ℕ) (j : Journal) → IsSound j → ExecSound (switches key t) j
unfolding exec switch_generation
switch_generation-Sound key t j h = elim (Bool-cases (generation_eq j.generation key)) [
  | inl e ↦ rw e (tt, h)
  | inr e ↦ rw e (
      switch_outcome key j h (open_at key t j) ((open_at-Opened key t).run j h.keyed) (
        (open_at-IsKept j key e t).run j
          (record { versions = refl; checkpoint = refl; file = refl })))
]

remembered :
    (old : List PaneInfo) (j : Journal) → j.checkpoint ≡ old → Synced j → KeyedAt j → Recovers old j
remembered old j e s k = subst (λ panes. Recovers panes j) e (Synced-Recovers j k s)

-- A call that only appends.
module _ (m : Io (Unit {0})) (s : Triple Synced m (λ _. Synced) Synced)
    (k : Triple KeyedAt m (λ _. KeyedAt) KeyedAt) (l : (old : List PaneInfo) → Leaves old m) where
  append-Sound :
      (j : Journal)
      → IsSound j
      → Holds (λ _ s. (s.checkpoint ≡ j.checkpoint) × IsSound s) (Recovers j.checkpoint) (m j)
  append-Sound j h =
      let old = j.checkpoint in
      Holds-weaken (λ _ s. Remembers old s × (Synced s × KeyedAt s)) _
        (λ s. Remembers old s × (Synced s × KeyedAt s)) _ (m j)
        (λ _ s g. (g.0, record { synced = g.1.0; keyed = g.1.1.keyed }))
        (λ s g. remembered old s g.0 g.1.0 g.1.1)
        ((Triple-both (λ _. Remembers old) (λ _ s. Synced s × KeyedAt s) (Remembers old)
            (λ s. Synced s × KeyedAt s) (Remembers old) (λ s. Synced s × KeyedAt s) m (l old)
            (Triple-both (λ _. Synced) (λ _. KeyedAt) Synced KeyedAt Synced KeyedAt m s k)).run
          j (refl, (h.synced, headed j h)))

old_or_new :
    (old panes : List PaneInfo) (j : Journal)
    → OldOrNew old panes j × KeyedAt j
    → Recovers old j ⊎ Recovers panes j
old_or_new old panes j ((e, inl s), k) = inl (remembered old j e s k)
old_or_new old panes j ((e, inr s), k) = inr (keep_live-Recovers j panes k s)

saves-Sound :
    (at : ℕ) (panes : List PaneInfo) (j : Journal)
    → IsDistinct panes
    → IsSound j
    → ExecSound (saves at panes) j
unfolding exec
saves-Sound at panes j d h =
    let old = j.checkpoint in
    let new = recoverable panes in
    (Triple-bind (λ _ s. (s.checkpoint ≡ new) × IsSound s) (λ _ s. (s.checkpoint ≡ new) × IsSound s)
        (Interrupted (saves at panes) old) (λ s. ((s.checkpoint ≡ old) × Synced s) × KeyedAt s)
        (checkpoint_panes at panes) _
        (Triple-weaken (λ n s. ((s.checkpoint ≡ new) × Saved new n s) × KeyedAt s) _
          (λ s. OldOrNew old new s × KeyedAt s) (Interrupted (saves at panes) old)
          (λ s. ((s.checkpoint ≡ old) × Synced s) × KeyedAt s) _ _ (λ s g. g)
          (λ _ s g. (g.0.0, record { synced = g.0.1.0; keyed = g.1.keyed }))
          (λ s g. old_or_new old new s g)
          (Triple-both (λ n s. (s.checkpoint ≡ new) × Saved new n s) (λ _. KeyedAt)
            (OldOrNew old new) KeyedAt (λ s. (s.checkpoint ≡ old) × Synced s) KeyedAt _
            (checkpoint_panes-Triple old at panes d) (checkpoint_panes-KeyedAt at panes)))
        (λ _. record { run = λ s g. g })).run
      j ((refl, h.synced), headed j h)

exec-Sound : (c : Call) (j : Journal) → IsDistinctCall c → IsSound j → ExecSound c j
unfolding exec
exec-Sound (saves at panes) j d h = saves-Sound at panes j d h
exec-Sound (buries entry) j d h =
    append-Sound _ (record_destroyed-Synced entry) (record_destroyed-KeyedAt entry)
      (λ old. record_destroyed-Leaves old entry) j h
exec-Sound (revives at g p) j d h =
    append-Sound _ (record_revived-Synced at g p) (record_revived-KeyedAt at g p)
      (λ old. record_revived-Leaves old at g p) j h
exec-Sound (resolves at source a) j d h =
    append-Sound _ (resolve_restore-Synced at source a) (resolve_restore-KeyedAt at source a)
      (λ old. resolve_restore-Leaves old at source a) j h
exec-Sound (switches key t) j d h = switch_generation-Sound key t j h

IsSound-RecoversThrough :
    (cs : List Call) (j : Journal) → AreDistinct cs → IsSound j → RecoversThrough cs j
IsSound-RecoversThrough [] j d h = Synced-Recovers j (headed j h) h.synced
IsSound-RecoversThrough (c ∷ cs) j d h = (
  Synced-Recovers j (headed j h) h.synced,
  Holds-weaken (λ _ s. HasLeft c j.checkpoint s × IsSound s)
      (λ _ s. HasLeft c j.checkpoint s × RecoversThrough cs s) (Interrupted c j.checkpoint)
      (Interrupted c j.checkpoint) (exec c j) (λ _ s g. (g.0, IsSound-RecoversThrough cs s d.1 g.1))
      (λ s g. g) (exec-Sound c j d.0 h),
)

-- On any keyed directory a daemon opens a generation and makes calls between two compactions,
-- whichever writes fail. If the opening succeeds, reopening reads back the recovery state of the
-- checkpoint in memory before, between and after the calls, up to the first that fails; a save that
-- succeeds has put its recoverable panes there, and the calls that only append have left it. After the
-- call that fails, reopening reads back the checkpoint before that call or, if the call was a save, the one
-- that it was writing. If the opening fails, the directory is still keyed. Saved panes are taken to have
-- distinct ids, and a write that fails is taken to leave nothing in the file.
pub open_at-RecoversThrough :
    (key : GenerationKey) (t : ℕ) (cs : List Call) (j : Journal)
    → AreDistinct cs
    → IsKeyed j.dir
    → Holds (λ _. RecoversThrough cs) (λ s. IsKeyed s.dir) (open_at key t j)
open_at-RecoversThrough key t cs j d h =
    Holds-weaken (λ _. Opened key) (λ _. RecoversThrough cs) (λ s. IsKeyed s.dir)
      (λ s. IsKeyed s.dir) (open_at key t j)
      (λ _ s g. IsSound-RecoversThrough cs s d (record { synced = g.0; keyed = g.1 })) (λ s g. g)
      ((open_at-Opened key t).run j h)
