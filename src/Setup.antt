-- ===== src/Setup.antt =====
-- cmd/main.go, internal/workloadns and the file of the enrollment secret: how the operator is put
-- together from its environment.
pub mod World
pub mod Namespace
pub mod Options
pub mod Integration
pub mod Handing
pub mod Tags
pub mod Started
pub mod Launch
pub mod Launched
