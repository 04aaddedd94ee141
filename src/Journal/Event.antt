-- ===== src/Journal/Event.antt =====
-- slopd/src/journal.rs: the keys of the generations and the events of their files.
use slopd.Base.{ℕ, String, Bool, true, ◌&&◌, List, ◌≡◌, ◌↔◌, ap, ◌==◌, eq_iff, and_iff, Eq}
use slopd.Pane.Info.{PaneInfo, GraveEntry}

-- One incarnation of the managed tmux session.
pub record GenerationKey : Type 0 where
  pub tmux_boot_id : String
  pub tmux_session_id : String

-- The derived `PartialEq`.
unfoldable pub generation_eq : GenerationKey → GenerationKey → Bool
generation_eq a b = a.tmux_boot_id == b.tmux_boot_id && a.tmux_session_id == b.tmux_session_id

pub generation_eq_iff : (a b : GenerationKey) → (generation_eq a b ≡ true) ↔ (a ≡ b)
unfolding generation_eq
generation_eq_iff a b =
    let both =
      and_iff _ _ (eq_iff a.tmux_boot_id b.tmux_boot_id)
        (eq_iff a.tmux_session_id b.tmux_session_id) in
    (
      λ h. let f = both.0 h in λ i. record { tmux_boot_id = f.0 i; tmux_session_id = f.1 i },
      λ e. both.1 (
        ap (λ (k : GenerationKey). k.tmux_boot_id) e,
        ap (λ (k : GenerationKey). k.tmux_session_id) e,
      ),
    )

instance abbrev pub generation_key_eq : Eq GenerationKey
generation_key_eq = record { beq = generation_eq; beq_iff = generation_eq_iff }

pub data JournalEvent : Type 0 where
  generation : (version started_at : ℕ) (tmux_boot_id tmux_session_id : String) → JournalEvent
  pane : (at : ℕ) → PaneInfo → JournalEvent
  checkpoint : (at : ℕ) → List String → JournalEvent
  destroyed : GraveEntry → JournalEvent
  revived : (at : ℕ) (grave_id pane_id tmux_boot_id tmux_session_id : String) → JournalEvent
  restore_resolved : (at : ℕ) → GenerationKey → String → JournalEvent
