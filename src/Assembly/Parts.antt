-- ===== src/Assembly/Parts.antt =====
-- cmd/main.go: the parts that NewRunnable is given, behind what the Runnable asks of them. Each
-- part has a history of its own, which is computed from the calls of the Runnable.
use ai_cloud_operator.Base.{String, List, [], ◌∷◌, Option, true, GoError, Result}
use ai_cloud_operator.Kube.{Node, Deployment}
use ai_cloud_operator.Workload.{Workload}
use ai_cloud_operator.Capacity.Tracker.{snapshot}
use ai_cloud_operator.Metrics.Collector
use ai_cloud_operator.TokenStore
use ai_cloud_operator.Setup.World
use ai_cloud_operator.Setup.Integration
use ai_cloud_operator.Client.Http
use ai_cloud_operator.Client.Calls
use ai_cloud_operator.Controller.World.{LifecyclePhase}
use ai_cloud_operator.Operator.World.{
  Env, Event, claimed_workload, claimed_operation, reported_failed, sent_heartbeat, registered,
  loaded_tokens, saved_tokens, read_usage, read_enrollment,
}

-- What is left to the outside: the transport of HTTP, the Secret of the tokens, the kubelets, the
-- mounted file and the API server.
pub record Parts : Type 0 where
  pub http : Http.Env
  pub store : TokenStore.Env
  pub collector : Collector.Env
  pub setup : World.Env
  pub namespace : String
  pub catalog_hash : String
  pub now : List Event → String
  pub get_workload : List Event → String → Result Workload
  pub create_workload : List Event → Workload → Result Workload
  pub update_workload : List Event → Workload → Result Workload
  pub delete_workload : List Event → String → Option GoError
  pub list_nodes : List Event → Result (List Node)
  pub list_deployments : List Event → Result (List Deployment)

module _ (parts : Parts) where
  open parts use {http, store, collector, setup}

  -- The requests that the client has sent in these calls.
  unfoldable pub requests : List Event → List Http.Event
  requests [] = []
  requests (claimed_workload token id ∷ t) = (Calls.claim_workload http token id (requests t)).1
  requests (claimed_operation token id ∷ t) = (Calls.claim_operation http token id (requests t)).1
  requests (reported_failed token name id reason retryable ∷ t) =
      (Calls.report_lifecycle http token name id LifecyclePhase.failed reason retryable
        (requests t)).1
  requests (sent_heartbeat token snap live ∷ t) =
      (Calls.heartbeat http token snap live (requests t)).1
  requests (registered secret ∷ t) = (Calls.register http secret (requests t)).1
  requests (_ ∷ t) = requests t

  -- The calls about the Secret of the tokens.
  unfoldable pub store_calls : List Event → List TokenStore.Event
  store_calls [] = []
  store_calls (loaded_tokens ∷ t) = (TokenStore.load store (store_calls t)).1
  store_calls (saved_tokens k ∷ t) = (TokenStore.save store k (store_calls t)).1
  store_calls (_ ∷ t) = store_calls t

  unfoldable pub collector_calls : List Event → List Collector.Event
  collector_calls [] = []
  collector_calls (read_usage ∷ t) = (Collector.collect_usage collector (collector_calls t)).1
  collector_calls (_ ∷ t) = collector_calls t

  unfoldable pub file_reads : List Event → List World.Event
  file_reads [] = []
  file_reads (read_enrollment ∷ t) = (Integration.current_secret setup (file_reads t)).1
  file_reads (_ ∷ t) = file_reads t

  -- RunnableConfig, as main fills it.
  abbrev pub assembled : Env
  assembled = record {
    lib = http.lib;
    namespace = parts.namespace;
    has_creator = true;
    has_destroyer = true;
    has_capacity = true;
    has_usage = true;
    catalog_hash = parts.catalog_hash;
    version = http.config.version;
    tags_fingerprint = Calls.tags_fingerprint http.config.tags;
    now = parts.now;
    get_workload = parts.get_workload;
    create_workload = parts.create_workload;
    update_workload = parts.update_workload;
    delete_workload = parts.delete_workload;
    claim_workload = λ t token id. (Calls.claim_workload http token id (requests t)).0;
    claim_operation = λ t token id. (Calls.claim_operation http token id (requests t)).0;
    report_failed = λ t token name id reason retryable.
        (Calls.report_lifecycle http token name id LifecyclePhase.failed reason retryable
          (requests t)).0;
    heartbeat = λ t token snap live. (Calls.heartbeat http token snap live (requests t)).0;
    register = λ t secret. (Calls.register http secret (requests t)).0;
    load_tokens = λ t. (TokenStore.load store (store_calls t)).0;
    save_tokens = λ t k. (TokenStore.save store k (store_calls t)).0;
    capacity = λ t. snapshot http.lib (parts.list_nodes t) (parts.list_deployments t);
    usage = λ t. (Collector.collect_usage collector (collector_calls t)).0;
    enrollment = λ t. (Integration.current_secret setup (file_reads t)).0;
  }
