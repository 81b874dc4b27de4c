-- ===== src/Metrics/Reporter.antt =====
-- internal/metrics/reporter.go: the reporter.
use ai_cloud_operator.Base.{ℕ, zero, suc, List, ◌∷◌, Result, ok, err}
use ai_cloud_operator.Metrics.Samples.{Sample}

pub data Event : Type 0 where
  collected : Event
  reported : List Sample → Event

-- The collector, behind its interface. What Convex answers is only logged.
pub record Env : Type 0 where
  pub collect : List Event → Result (List Sample)

-- The calls up to and with this tick.
unfoldable pub report_once : Env → List Event → List Event
report_once env t = elim (env.collect t) [
  | err _ ↦ collected ∷ t
  | ok samples ↦ reported samples ∷ collected ∷ t
]

-- The loop of `Start` until the context is cancelled, after this many ticks.
unfoldable pub start : Env → ℕ → List Event → List Event
start env zero t = t
start env (suc n) t = start env n (report_once env t)
