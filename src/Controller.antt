-- ===== src/Controller.antt =====
-- internal/controller: the reconciler of Workload resources.
pub mod World
pub mod Render
pub mod Sync
pub mod Reconcile
pub mod Loop
pub mod Syncing
pub mod Settling
pub mod Stuck
pub mod Releasing
pub mod Calm
pub mod Ending
pub mod Steady
pub mod Repeating
pub mod Failing
pub mod LabelValues
