-- ===== src/Workload.antt =====
-- api/v1alpha1/workload_types.go: the Workload resource, with the metadata that the operator uses.
use ai_cloud_operator.Base.{ℕ, String, List, Option, Bool}
use ai_cloud_operator.Base.Int.{ℤ, pos}
use ai_cloud_operator.Kube.{EnvVar}

pub record WorkloadSpec : Type 0 where
  pub template_name : String
  pub image : String
  pub replicas : Option ℤ
  pub container_port : ℤ
  pub env : List EnvVar
  pub subdomain : String
  pub user_id : String
  -- The raw bytes of the JSON bag; `none` is a nil pointer.
  pub config : Option String
  pub suspended : Bool
  pub last_redeployed_at : String

-- `unset` is the empty text of a Workload that has no status yet.
pub data Phase : Type 0 where
  unset deploying running failed stopped : Phase

pub Phase-discrete : Discrete Phase
Phase-discrete = hlevel

pub data ConditionType : Type 0 where
  ready convex_synced convex_lifecycle_synced : ConditionType

unfoldable pub ConditionType-discrete : Discrete ConditionType
ConditionType-discrete = hlevel

pub data Reason : Type 0 where
  workload_suspended deployment_ready deployment_progressing : Reason
  notify_failed notified already_resolved : Reason
  reconcile_error invalid_spec unknown_template : Reason

-- A metav1.Condition. `status` is its truth value: the operator never writes "Unknown".
pub record Condition : Type 0 where
  pub kind : ConditionType
  pub status : Bool
  pub reason : Reason
  pub message : String
  pub observed_generation : ℕ

pub record WorkloadStatus : Type 0 where
  pub phase : Phase
  pub ready_replicas : ℤ
  pub observed_generation : ℕ
  pub conditions : List Condition

abbrev pub default_replicas : ℤ
default_replicas = pos 1

-- `deleting` says that the deletion timestamp is set.
pub record Workload : Type 0 where
  pub name : String
  pub generate_name : String
  pub namespace : String
  pub uid : String
  pub generation : ℕ
  pub labels : List (String × String)
  pub finalizers : List String
  pub deleting : Bool
  pub spec : WorkloadSpec
  pub status : WorkloadStatus
