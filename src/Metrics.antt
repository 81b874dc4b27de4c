-- ===== src/Metrics.antt =====
-- internal/metrics: live usage of the workloads and of the cluster.
pub mod Samples
pub mod Collector
pub mod Reporter
pub mod Counting
pub mod Sampling
pub mod Reporting
