-- ===== src/Capacity.antt =====
-- internal/capacity: whether another workload fits on this cluster.
pub mod Tracker
pub mod Room
