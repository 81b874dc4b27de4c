-- ===== src/Client/Wire.antt =====
-- internal/convexclient/client.go: the bodies of requests and responses.
use ai_cloud_operator.Base.{ℕ, String, List, Option, Bool}
use ai_cloud_operator.Base.Int.{ℤ}
use ai_cloud_operator.Catalog.Types.{Params}
use ai_cloud_operator.Catalog.Template.{Template}
use ai_cloud_operator.Operator.World.{ClaimableWorkload, PendingOperation}
use ai_cloud_operator.Controller.World.{LifecyclePhase}

-- `tags` is `none` for a nil pointer, which is left out of the body.
pub record RegisterRequest : Type 0 where
  pub name : String
  pub external_url : String
  pub enrollment_secret : String
  pub metadata : Params
  pub catalog : List Template
  pub operator_version : String
  pub tags : Option (List String)

pub record RegisterResponse : Type 0 where
  pub heartbeat_token : String
  pub deploy_token : String

pub record ResourceCapacity : Type 0 where
  pub allocatable_milli_cpu : ℤ
  pub allocatable_memory_bytes : ℤ
  pub used_milli_cpu : ℤ
  pub used_memory_bytes : ℤ
  pub cluster_used_milli_cpu : Option ℤ
  pub cluster_used_memory_bytes : Option ℤ
  pub managed_used_milli_cpu : Option ℤ
  pub managed_used_memory_bytes : Option ℤ
  pub nodes_reporting : Option ℕ
  pub nodes_total : Option ℕ

pub record HeartbeatRequest : Type 0 where
  pub name : String
  pub resource_capacity : Option ResourceCapacity

pub record HeartbeatResponse : Type 0 where
  pub claimable : List ClaimableWorkload
  pub pending_operations : List PendingOperation

pub record LifecycleRequest : Type 0 where
  pub name : String
  pub workload_id : String
  pub phase : LifecyclePhase
  pub reason : String
  pub retryable : Bool

pub record UpsertRequest : Type 0 where
  pub name : String
  pub namespace : String
  pub template_id : String
  pub user_id : String
  pub subdomain : String
  pub workload_id : String

pub record MetricSample : Type 0 where
  pub name : String
  pub metric : String
  pub value : ℤ
  pub sampled_at : ℕ

pub data Body : Type 0 where
  register : RegisterRequest → Body
  heartbeat : HeartbeatRequest → Body
  claim_workload claim_operation : (workload_id : String) → Body
  lifecycle : LifecycleRequest → Body
  upsert : UpsertRequest → Body
  verify_token : (token namespace name : String) → Body
  remove : (name namespace : String) → Body
  metrics : List MetricSample → Body
