-- ===== src/Gateway.antt =====
-- internal/gateway: the browser's way to a workload.
pub mod KeyStore
pub mod Stuck
pub mod Race
pub mod Agreement
pub mod Token
pub mod Expiry
pub mod Signing
pub mod Page
pub mod Proxy
pub mod Routing
pub mod Consensus
