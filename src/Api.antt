-- ===== src/Api.antt =====
-- internal/api: the operator's inbound HTTP API.
pub mod World
pub mod Guards
pub mod Handlers
pub mod Server
pub mod Access
pub mod Codes
pub mod Answers
pub mod Deploying
pub mod Accepting
pub mod Sessions
pub mod Redirects
