-- ===== src/Setup/World.antt =====
-- cmd/main.go: what the operator is started with.
use ai_cloud_operator.Base.{String, List, Option, GoError, Result}
use ai_cloud_operator.Base.Int.{ℤ}

-- What is handed to the manager.
pub data Component : Type 0 where
  tracker runnable reporter server : Component

pub data Event : Type 0 where
  read_secret loaded_key : Event
  created_namespace patched_namespace : (name : String) → (labels : List (String × String)) → Event
  added : Component → Event

-- `lookup_env` is os.LookupEnv, and `load_key` the gateway's LoadOrGenerate. A duration counts
-- nanoseconds. The three `new` fields are what the constructors of clients answer.
pub record Env : Type 0 where
  pub lookup_env : String → Option String
  pub trim_space : String → String
  pub parse_duration : String → Result ℤ
  pub read_file : List Event → Result String
  pub load_key : List Event → Result String
  pub create_namespace : List Event → String → Option GoError
  pub patch_namespace : List Event → String → Option GoError
  pub add : List Event → Component → Option GoError
  pub new_collector : Option GoError
  pub new_proxy : Option GoError
  pub new_executor : Option GoError
  pub quote : String → String

-- The settings that the parts are made with.
pub record Settings : Type 0 where
  pub base_url : String
  pub operator_name : String
  pub external_url : String
  pub pod_namespace : String
  pub workload_namespace : String
  pub enrollment_secret : String
  pub gateway_secret : String
  pub listen_addr : String
  pub heartbeat_interval : ℤ
  pub metrics_interval : ℤ
  pub version : String
  pub tags : Option (List String)
