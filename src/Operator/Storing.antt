-- ===== src/Operator/Storing.antt =====
-- internal/provisioning/creator.go: what a resource stores of a config.
use ai_cloud_operator.Base.{String, Option, none, some, ◌≡◌, inl, inr, ok, Result-cases, arith}
use ai_cloud_operator.Catalog.Types.{Params}
use ai_cloud_operator.Operator.World.{Env}
use ai_cloud_operator.Operator.Provisioning.{checked_config, marshal_config}

module _ (env : Env) where
  -- The text that a resource stores for a claimed config: none for a missing one, else its JSON.
  abbrev pub IsStored : Option Params → Option String → Type 0
  IsStored none o = o ≡ none
  IsStored (some m) o = (text : String) × (env.lib.json_encode m ≡ ok text) × (o ≡ some text)

  pub checked_config-IsStored :
      (id : String) (config : Option Params) (raw : Option String)
      → checked_config env id config ≡ ok raw
      → IsStored config raw
  unfolding checked_config marshal_config
  checked_config-IsStored id none raw e = ground arith
  checked_config-IsStored id (some m) raw e = elim (Result-cases (env.lib.json_encode m)) [
    | inl (text, f) ↦ (text, f, ground arith)
    | inr (x, f) ↦ absurd (ground arith)
  ]
