-- ===== src/Leases.antt =====
-- slopd/src/main.rs: leases of external owners on panes. The registry of the grants, the tags that
-- attach a grant to a pane, and the reclaiming of panes after the grace of an expired grant.
pub mod Tags
pub mod Registry
pub mod Ids
pub mod Superseded
pub mod TagValues
pub mod Reclaim
