-- ===== src/Operator.antt =====
-- internal/convexclient and internal/provisioning: the operator's side of the protocol with Convex.
pub mod World
pub mod Provisioning
pub mod Storing
pub mod Claims
pub mod ClaimRuns
pub mod Ticks
pub mod Registration
pub mod Sessions
pub mod Headroom
pub mod Operations
pub mod PendingTicks
pub mod Serving
pub mod Fresh
pub mod Extents
pub mod Upkeep
pub mod Intake
pub mod Duties
