-- ===== src/Leader.antt =====
-- internal/leader: the leader of the cluster.
pub mod State
pub mod System
pub mod Dispatch
pub mod Priority
pub mod Reconcile
pub mod Update
pub mod Delete
pub mod Persist
pub mod Status
pub mod EventBus
pub mod InitJobs
