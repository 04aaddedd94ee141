-- ===== src/Journal/Synced.antt =====
-- slopd/src/journal.rs: the invariant between the journal in memory and its file, which is that replaying
-- the file gives the recovery state in memory.
use slopd.Base.{
  ℕ, String, some, List, [], ◌∷◌, ◌++◌, ◌≡◌, refl, ap, ◌∙◌, map, Map, get, insert, retain_keys,
  contains, string_eq, get-insert, get-retain_keys, map_option, option_beq, arith, Bool-cases, All,
  inl, inr,
}
use slopd.Pane.Info.{PaneInfo, GraveEntry}
use slopd.Pane.Recovery.{recovery}
use slopd.Journal.Event.{
  GenerationKey, generation_eq_iff, generation_key_eq, JournalEvent, pane, checkpoint, destroyed,
  revived, restore_resolved,
}
use slopd.Journal.Replay.{
  GenerationState, read_generation, read_generation-append, apply_event, named_panes,
}
use slopd.Journal.Io.{Journal, current_file, write_event}
use slopd.Journal.Writer.{pane_ids}

-- A replayed state and the current one agree on what a restore consumes.
pub record Agrees (st : GenerationState) (key : GenerationKey) (versions : Map String PaneInfo)
    (cp : List PaneInfo) : Type 0 where
  pub same_key : st.key ≡ some key
  pub same_checkpoint : map recovery st.checkpoint ≡ map recovery cp
  pub same_versions :
      (id : String)
      → map_option recovery (get st.pane_versions id) ≡ map_option recovery (get versions id)

abbrev pub Synced : Journal → Type 0
Synced j = Agrees (read_generation (current_file j)) j.generation j.pane_versions j.checkpoint

-- Reading back what was just written.
pub current_file-write_event :
    (e : JournalEvent) (j : Journal) → current_file (write_event e j) ≡ current_file j ++ e ∷ []
current_file-write_event e j =
    rw (get-insert j.generation j.generation (current_file j ++ e ∷ []) j.dir)
      (rw ((generation_eq_iff j.generation j.generation).1 refl) refl)

pub read-write_event :
    (e : JournalEvent) (j : Journal)
    → read_generation (current_file (write_event e j))
      ≡ apply_event (read_generation (current_file j)) e
read-write_event e j =
    ap read_generation (current_file-write_event e j) ∙ read_generation-append (current_file j) e

module _ {st : GenerationState} {key : GenerationKey} {versions : Map String PaneInfo}
    {cp : List PaneInfo} where
  pub Agrees-destroyed :
      (entry : GraveEntry)
      → Agrees st key versions cp
      → Agrees (apply_event st (destroyed entry)) key versions cp
  unfolding apply_event
  Agrees-destroyed entry h = record {
    same_key = h.same_key;
    same_checkpoint = h.same_checkpoint;
    same_versions = h.same_versions;
  }

  pub Agrees-revived :
      (at : ℕ) (grave_id pane_id boot session : String)
      → Agrees st key versions cp
      → Agrees (apply_event st (revived at grave_id pane_id boot session)) key versions cp
  unfolding apply_event
  Agrees-revived at grave_id pane_id boot session h = record {
    same_key = h.same_key;
    same_checkpoint = h.same_checkpoint;
    same_versions = h.same_versions;
  }

  pub Agrees-restore_resolved :
      (at : ℕ) (source : GenerationKey) (action : String)
      → Agrees st key versions cp
      → Agrees (apply_event st (restore_resolved at source action)) key versions cp
  unfolding apply_event
  Agrees-restore_resolved at source action h = elim (Bool-cases (option_beq st.key (some source))) [
    | inl e ↦ rw e h
    | inr e ↦ rw e (record {
      same_key = h.same_key;
      same_checkpoint = h.same_checkpoint;
      same_versions = h.same_versions;
    })
  ]

  pub Agrees-pane :
      (at : ℕ) (p : PaneInfo)
      → Agrees st key versions cp
      → Agrees (apply_event st (pane at p)) key (insert p.pane_id p versions) cp
  unfolding apply_event
  Agrees-pane at p h = record {
    same_key = h.same_key;
    same_checkpoint = h.same_checkpoint;
    same_versions = λ id.
        rw (get-insert p.pane_id id p st.pane_versions, get-insert p.pane_id id p versions)
          (ground (arith, h.same_versions id));
  }

-- The latest version recorded of a pane is that pane.
abbrev pub VersionOf : Map String PaneInfo → PaneInfo → Type 0
VersionOf versions p = map_option recovery (get versions p.pane_id) ≡ some (recovery p)

named_panes-eq :
    (versions : Map String PaneInfo) (panes : List PaneInfo)
    → All (VersionOf versions) panes
    → map recovery (named_panes versions (pane_ids panes)) ≡ map recovery panes
unfolding named_panes
named_panes-eq versions [] h = refl
named_panes-eq versions (p ∷ panes) h = ground (arith, named_panes-eq versions panes h.1, h.0)

All-VersionOf :
    (versions others : Map String PaneInfo) (panes : List PaneInfo)
    → ((id : String) → map_option recovery (get others id) ≡ map_option recovery (get versions id))
    → All (VersionOf versions) panes
    → All (VersionOf others) panes
All-VersionOf versions others [] e h = tt
All-VersionOf versions others (p ∷ panes) e h =
    (e p.pane_id ∙ h.0, All-VersionOf versions others panes e h.1)

pub Agrees-checkpoint :
    (st : GenerationState) (key : GenerationKey) (versions : Map String PaneInfo)
    (cp panes : List PaneInfo) (at : ℕ)
    → All (VersionOf versions) panes
    → Agrees st key versions cp
    → Agrees
        (apply_event st (checkpoint at (pane_ids panes)))
        key
        (retain_keys (contains (pane_ids panes)) versions)
        panes
unfolding apply_event
Agrees-checkpoint st key versions cp panes at recorded h = record {
  same_key = h.same_key;
  same_checkpoint =
      named_panes-eq st.pane_versions panes
        (All-VersionOf versions st.pane_versions panes h.same_versions recorded);
  same_versions = λ id.
      rw
        (
          get-retain_keys (contains (pane_ids panes)) id st.pane_versions,
          get-retain_keys (contains (pane_ids panes)) id versions,
        )
        (ground (arith, h.same_versions id));
}
