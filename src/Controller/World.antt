-- ===== src/Controller/World.antt =====
-- internal/controller: what the reconciler asks of the Kubernetes API server and of Convex, and the
-- functions of the Kubernetes libraries that it calls. All of that is not in this repository.
use ai_cloud_operator.Base.{ℕ, String, List, Option, some, Bool, GoError, Result, ◌≡◌, ◌≢◌}
use ai_cloud_operator.Base.Int.{ℤ}
use ai_cloud_operator.Kube.{Container, Volume, ServicePort, Pod, Deployment}
use ai_cloud_operator.Workload.{Workload, Condition, ConditionType}
use ai_cloud_operator.Catalog.Types.{Library}

abbrev pub Labels : Type 0
Labels = List (String × String)

pub data LifecyclePhase : Type 0 where
  active failed stopped : LifecyclePhase

-- convexclient.WorkloadInfo.
pub record WorkloadInfo : Type 0 where
  pub name : String
  pub namespace : String
  pub template_name : String
  pub user_id : String
  pub subdomain : String
  pub workload_id : String

-- The fields that the mutate function of a CreateOrUpdate writes; the owner is the Workload's UID.
pub record DeploymentWrite : Type 0 where
  pub name : String
  pub namespace : String
  pub labels : Labels
  pub replicas : ℤ
  pub selector : Labels
  pub template_labels : Labels
  pub containers : List Container
  pub init_containers : List Container
  pub volumes : List Volume
  pub owner : String

pub record ServiceWrite : Type 0 where
  pub name : String
  pub namespace : String
  pub labels : Labels
  pub selector : Labels
  pub ports : List ServicePort
  pub owner : String

pub data Event : Type 0 where
  got_workload : (namespace name : String) → Event
  updated_workload updated_status deleted_workload : Workload → Event
  listed_pods : (namespace : String) → Labels → Event
  got_deployment : (namespace name : String) → Event
  wrote_deployment : DeploymentWrite → Event
  wrote_service : ServiceWrite → Event
  upserted_workload : WorkloadInfo → Event
  reported_lifecycle :
      (name workload_id : String) → LifecyclePhase → (reason : String) → (retryable : Bool) → Event
  removed_workload : (name namespace : String) → Event

-- An answer is a function of all calls before it, newest first. An update answers with the object
-- as the server stored it, which the client copies into the caller's variable.
pub record Env : Type 0 where
  pub lib : Library
  -- `ConvexClient != nil`.
  pub convex_attached : Bool
  pub now : List Event → ℕ
  pub get_workload : List Event → String → String → Result Workload
  pub update_workload : List Event → Workload → Result Workload
  pub update_status : List Event → Workload → Result Workload
  pub delete_workload : List Event → Workload → Option GoError
  pub list_pods : List Event → String → Labels → Result (List Pod)
  pub get_deployment : List Event → String → String → Result Deployment
  pub write_deployment : List Event → DeploymentWrite → Option GoError
  pub write_service : List Event → ServiceWrite → Option GoError
  pub upsert_workload : List Event → WorkloadInfo → Option GoError
  pub report_lifecycle :
      List Event → String → String → LifecyclePhase → String → Bool → Option GoError
  pub remove_workload : List Event → String → String → Option GoError
  -- apimeta.FindStatusCondition and SetStatusCondition.
  pub find_condition : List Condition → ConditionType → Option Condition
  pub set_condition : List Condition → Condition → List Condition
  -- controllerutil.ContainsFinalizer, AddFinalizer and RemoveFinalizer.
  pub contains_finalizer : List String → String → Bool
  pub add_finalizer : List String → String → List String
  pub remove_finalizer : List String → String → List String

-- The documented behaviour of apimeta's two functions.
pub record ConditionLaws (env : Env) : Type 0 where
  pub find-set :
      (cs : List Condition) (c : Condition)
      → env.find_condition (env.set_condition cs c) c.kind ≡ some c
  pub find-set_ne :
      (cs : List Condition) (c : Condition) (k : ConditionType)
      → c.kind ≢ k
      → env.find_condition (env.set_condition cs c) k ≡ env.find_condition cs k
  -- SetStatusCondition of a condition that is there already.
  pub set-found :
      (cs : List Condition) (c : Condition)
      → env.find_condition cs c.kind ≡ some c
      → env.set_condition cs c ≡ cs
