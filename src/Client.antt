-- ===== src/Client.antt =====
-- internal/convexclient/client.go: the HTTP client of Convex.
pub mod Wire
pub mod Http
pub mod Calls
pub mod Verdicts
pub mod Claims
pub mod Reports
pub mod Delegations
