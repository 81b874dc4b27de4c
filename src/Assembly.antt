-- ===== src/Assembly.antt =====
-- cmd/main.go: the Runnable with the parts that it is given there, and what follows for the whole.
pub mod Parts
pub mod Backing
pub mod Renewal
pub mod Restart
pub mod Reconciler
pub mod Telling
pub mod Recording
pub mod Knowing
