-- ===== src/Operator/Fresh.antt =====
-- internal/convexclient/runnable.go: the tokens that a running operator presents.
use ai_cloud_operator.Base.{true, ◌≡◌}
use ai_cloud_operator.Operator.World.{Env}
use ai_cloud_operator.Operator.Registration.{Session, is_fresh}

module _ (env : Env) where
  -- The tokens were issued for the running operator's catalog, version and tags.
  abbrev pub IsFresh : Session → Type 0
  IsFresh s = is_fresh env s.tokens ≡ true
