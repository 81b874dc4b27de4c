-- ===== src/Metrics/Samples.antt =====
-- internal/metrics/collector.go: a measurement.
use ai_cloud_operator.Base.{ℕ, String}
use ai_cloud_operator.Base.Int.{ℤ}

-- `value` is a float64, and `sampled_at` counts Unix nanoseconds.
pub record Sample : Type 0 where
  pub name : String
  pub metric : String
  pub value : ℤ
  pub sampled_at : ℕ
