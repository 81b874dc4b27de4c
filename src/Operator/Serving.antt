-- ===== src/Operator/Serving.antt =====
-- internal/convexclient/runnable.go: `Start`.
use ai_cloud_operator.Base.{ℕ, zero, suc, Option, none, some, GoError}
use ai_cloud_operator.Base.Effects.{M, return, ◌>>=◌}
use ai_cloud_operator.Operator.World.{Env, Event}
use ai_cloud_operator.Operator.Registration.{
  Session, load_or_register, heartbeat_once, check_enrollment_secret,
}

module _ (env : Env) where
  unfoldable pub tick : Session → M Event Session
  tick s = do beaten ← heartbeat_once env s; check_enrollment_secret env beaten

  -- The loop until the context is cancelled, after this many ticks.
  unfoldable pub run_ticks : ℕ → Session → M Event Session
  run_ticks zero s t = (s, t)
  run_ticks (suc n) s t = let r = tick s t in run_ticks n r.0 r.1

  -- With the number of ticks before the cancellation.
  unfoldable pub start : ℕ → Session → M Event (Session × Option GoError)
  start ticks s = do
    began ← load_or_register env s
    elim began.1 [
      | some e ↦ return (began.0, some e)
      | none ↦ do left ← run_ticks ticks began.0; return (left, none)
    ]
