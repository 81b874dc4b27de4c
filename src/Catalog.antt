-- ===== src/Catalog.antt =====
-- internal/catalog: the registry of deployable workload templates.
pub mod Types
pub mod Params
pub mod Browser
pub mod Backup
pub mod Template
pub mod Nginx
pub mod Desktop
pub mod Registry
pub mod Validating
pub mod Showing
pub mod Resolving
pub mod Entries
pub mod Typing
