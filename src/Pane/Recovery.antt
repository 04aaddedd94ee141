-- ===== src/Pane/Recovery.antt =====
-- slopd/src/journal.rs: which fields of a pane are durable recovery state.
use slopd.Base.{
  ℕ, String, Bool, true, false, ◌&&◌, Option, List, [], ◌∷◌, map, ◌≡◌, ◌↔◌, ap, arith, ◌==◌, eq_iff,
  string_eq, nat_eq, nat_eq_iff, and_iff, option_beq, option_beq_iff, list_beq, list_beq_iff,
}
use slopd.Pane.Info.{PaneInfo}
use slopd.Pane.Agent.{Backend, backend_eq, backend_eq_iff}

-- What `restore_panes` consumes.
pub record RecoveryView : Type 0 where
  pub pane_id : String
  pub created_at : ℕ
  pub session_id : Option String
  pub parent_pane_id : Option String
  pub tags : List String
  pub working_dir : Option String
  pub transcript_path : Option String
  pub account : String
  pub backend : Backend

abbrev pub recovery : PaneInfo → RecoveryView
recovery p = record {
  pane_id = p.pane_id;
  created_at = p.created_at;
  session_id = p.session_id;
  parent_pane_id = p.parent_pane_id;
  tags = p.tags;
  working_dir = p.working_dir;
  transcript_path = p.transcript_path;
  account = p.account;
  backend = p.backend;
}

pub same_recovery_metadata : PaneInfo → PaneInfo → Bool
same_recovery_metadata a b =
    a.pane_id == b.pane_id
    && nat_eq a.created_at b.created_at
    && option_beq a.session_id b.session_id
    && option_beq a.parent_pane_id b.parent_pane_id
    && list_beq a.tags b.tags
    && option_beq a.working_dir b.working_dir
    && option_beq a.transcript_path b.transcript_path
    && a.account == b.account
    && backend_eq a.backend b.backend

-- `a.len() == b.len() && a.iter().zip(b).all(…)`: pairwise, and of one length.
unfoldable pub same_recovery_checkpoint : List PaneInfo → List PaneInfo → Bool
same_recovery_checkpoint [] [] = true
same_recovery_checkpoint (a ∷ as') (b ∷ bs) =
    same_recovery_metadata a b && same_recovery_checkpoint as' bs
same_recovery_checkpoint _ _ = false

fields_equal :
    (a b : PaneInfo)
    → (same_recovery_metadata a b ≡ true)
      ↔ ((((((((a.pane_id ≡ b.pane_id) × (a.created_at ≡ b.created_at))
                    × (a.session_id ≡ b.session_id))
                  × (a.parent_pane_id ≡ b.parent_pane_id))
                × (a.tags ≡ b.tags))
              × (a.working_dir ≡ b.working_dir))
            × (a.transcript_path ≡ b.transcript_path))
          × (a.account ≡ b.account))
        × (a.backend ≡ b.backend)
unfolding same_recovery_metadata
fields_equal a b =
    and_iff _ _
      (and_iff _ _
        (and_iff _ _
          (and_iff _ _
            (and_iff _ _
              (and_iff _ _
                (and_iff _ _ (and_iff _ _ (eq_iff _ _) (nat_eq_iff _ _)) (option_beq_iff _ _))
                (option_beq_iff _ _))
              (list_beq_iff _ _))
            (option_beq_iff _ _))
          (option_beq_iff _ _))
        (eq_iff _ _))
      (backend_eq_iff _ _)

-- The test is the equality of the views.
pub same_recovery_metadata_iff :
    (a b : PaneInfo) → (same_recovery_metadata a b ≡ true) ↔ (recovery a ≡ recovery b)
same_recovery_metadata_iff a b = (
  λ h.
      let f = (fields_equal a b).0 h in
      λ i. record {
        pane_id = (f.0.0.0.0.0.0.0.0) i;
        created_at = (f.0.0.0.0.0.0.0.1) i;
        session_id = (f.0.0.0.0.0.0.1) i;
        parent_pane_id = (f.0.0.0.0.0.1) i;
        tags = (f.0.0.0.0.1) i;
        working_dir = (f.0.0.0.1) i;
        transcript_path = (f.0.0.1) i;
        account = (f.0.1) i;
        backend = (f.1) i;
      },
  λ e. (fields_equal a b).1 (
    (
      (
        (
          (
            (
              (
                (ap (λ (v : RecoveryView). v.pane_id) e, ap (λ (v : RecoveryView). v.created_at) e),
                ap (λ (v : RecoveryView). v.session_id) e,
              ),
              ap (λ (v : RecoveryView). v.parent_pane_id) e,
            ),
            ap (λ (v : RecoveryView). v.tags) e,
          ),
          ap (λ (v : RecoveryView). v.working_dir) e,
        ),
        ap (λ (v : RecoveryView). v.transcript_path) e,
      ),
      ap (λ (v : RecoveryView). v.account) e,
    ),
    ap (λ (v : RecoveryView). v.backend) e,
  ),
)

-- Two checkpoints count as the same exactly when they list panes with the same recovery views, pane
-- by pane: all fields of a pane but its activity, its states and its title.
pub same_recovery_checkpoint_iff :
    (a b : List PaneInfo)
    → (same_recovery_checkpoint a b ≡ true) ↔ (map recovery a ≡ map recovery b)
unfolding same_recovery_checkpoint
same_recovery_checkpoint_iff [] [] = ground arith
same_recovery_checkpoint_iff [] (b ∷ bs) = ground arith
same_recovery_checkpoint_iff (a ∷ as') [] = ground arith
same_recovery_checkpoint_iff (a ∷ as') (b ∷ bs) =
    ground (arith, same_recovery_metadata_iff a b, same_recovery_checkpoint_iff as' bs)
