-- ===== src/Tests/Client.antt =====
-- The client of Convex and the usage collector at concrete inputs.
use ai_cloud_operator.Base.{
  get_text, lookup, ◌≤◌, String, List, [], ◌∷◌, none, some, true, false, GoError, leaf, ErrorKind,
  is_kind, ok, err, length, ◌≡◌, refl, ◌⊎◌, ◌↔◌, arith,
}
use ai_cloud_operator.Base.Int.{pos}
use ai_cloud_operator.Operator.World.{UsageSnapshot}
use ai_cloud_operator.Operator.World
use ai_cloud_operator.Operator.Registration.{is_unauthorized, register}
use ai_cloud_operator.Operator.Serving.{start}
use ai_cloud_operator.Controller.World.{LifecyclePhase}
use ai_cloud_operator.Client.Wire
use ai_cloud_operator.Client.Http.{Env, Response}
use ai_cloud_operator.Client.Calls.{heartbeat, claim_workload, claim_operation, report_lifecycle}
use ai_cloud_operator.Client.Verdicts.{Answered, heartbeat_body, heartbeat-unauthorized_iff}
use ai_cloud_operator.Client.Claims.{ClaimVerdict, claims-ClaimVerdict}
use ai_cloud_operator.Client.Reports.{Foreign, lifecycle_body, report_lifecycle-verdict}
use ai_cloud_operator.Kube.{Pod}
use ai_cloud_operator.Metrics.Samples.{Sample}
use ai_cloud_operator.Metrics.Collector
use ai_cloud_operator.Metrics.Reporter
use ai_cloud_operator.Metrics.Reporting.{fetches, measuring, Reports, start-Reports}
use ai_cloud_operator.Metrics.Counting.{answering, collect_usage-counts}
use ai_cloud_operator.Tests.Samples.{library}
use ai_cloud_operator.Tests.Operator

abbrev lost : GoError
lost = leaf ErrorKind.plain "connection refused"

-- Convex answers every request with 409.
abbrev env : Env
env = record {
  lib = library;
  config = record {
    base_url = "https://convex.example";
    operator_name = "op";
    external_url = "https://op.example";
    metadata = [];
    version = "v1";
    tags = some ("gpu" ∷ []);
  };
  show_status = λ n. "409";
  encode = λ body. ok "{}";
  url_fault = λ url. none;
  send = λ t q. ok (record { status = 409; body = "{}" });
  decode_register = λ raw. err lost;
  decode_heartbeat = λ raw. err lost;
  decode_claimed_workload = λ raw. err lost;
  decode_claimed_operation = λ raw. err lost;
  decode_verified = λ raw. err lost;
}

heartbeat-unauthorized_iff_example :
    ((e : GoError) × ((heartbeat env "token" none none []).0 ≡ err e) × (is_unauthorized e ≡ true))
    ↔ ((r : Response) × Answered env [] "/operators/heartbeat"
          (some "token")
          (heartbeat_body env none none)
          r
        × ((r.status ≡ 401) ⊎ (r.status ≡ 410)))
heartbeat-unauthorized_iff_example = heartbeat-unauthorized_iff env [] "token" none none

claims-ClaimVerdict_example :
    ClaimVerdict env [] "/operators/workloads/claim" "token"
      (Wire.claim_workload "w1")
      env.decode_claimed_workload
      (claim_workload env "token" "w1" []).0
    × ClaimVerdict env [] "/operators/workloads/claim-operation" "token"
        (Wire.claim_operation "w1")
        env.decode_claimed_operation
        (claim_operation env "token" "w1" []).0
claims-ClaimVerdict_example = claims-ClaimVerdict env [] "token" "w1"

foreign : Foreign env
foreign = record {
  encoding = λ body e f. ground arith;
  building = λ url e f. ground arith;
  sending = λ t q e f. ground arith;
}

report_lifecycle-verdict_example :
    (((report_lifecycle env "token" "web" "w1" LifecyclePhase.active "" false []).0 ≡ none) ↔ (
      (r : Response) × Answered env [] "/operators/workloads/lifecycle"
        (some "token")
        (lifecycle_body env "web" "w1" LifecyclePhase.active "" false)
        r
      × (r.status ≡ 200)))
    × (((e : GoError) × ((report_lifecycle env "token" "web" "w1" LifecyclePhase.active "" false
              []).0
            ≡ some e)
          × (is_kind ErrorKind.lifecycle_stale e ≡ true))
        ↔ ((r : Response) × Answered env [] "/operators/workloads/lifecycle"
              (some "token")
              (lifecycle_body env "web" "w1" LifecyclePhase.active "" false)
              r
            × (r.status ≡ 409)))
report_lifecycle-verdict_example =
    report_lifecycle-verdict env [] "token" "web" "w1" LifecyclePhase.active "" false foreign

-- Convex registers the operator.
abbrev serving : World.Env
serving = record (Operator.env) { register = λ t secret. ok (Operator.session.tokens) }

abbrev names : List String
names = "a" ∷ "b" ∷ []

-- One of the two nodes does not answer.
abbrev pub cluster : Collector.Env
cluster = record {
  list_nodes = λ t. ok names;
  list_pods = λ t. ok [];
  request_stats = λ t node. elim t [
    | [] ↦ ok ""
    | _ ∷ rest ↦ elim rest [ [] ↦ ok "" | _ ∷ more ↦ elim more [ [] ↦ ok "{}" | _ ∷ _ ↦ err lost ] ]
  ];
  decode_summary = λ raw. ok (record { node = none; pods = [] });
  now = λ t. 0;
  float_of_uint = λ n. pos n;
  order = λ keys. keys;
}

abbrev reading : UsageSnapshot
reading = record (Collector.first_usage 2) { nodes_reporting = 1 }

collected : (Collector.collect_usage cluster []).0 ≡ ok reading
unfolding Collector.collect_usage Collector.visit_nodes Collector.fetch_node_summary
    Collector.add_summary Collector.add_node Collector.add_pods
collected = refl

collect_usage-counts_example :
    (reading.nodes_total ≡ length names)
    × (reading.nodes_reporting
        ≡ answering cluster names (Collector.listed_pods ∷ Collector.listed_nodes ∷ []))
    × (reading.nodes_reporting ≤ reading.nodes_total)
collect_usage-counts_example = collect_usage-counts cluster [] reading names refl collected

abbrev pod : Pod
pod = record {
  name = "web-1";
  namespace = "tenant";
  labels = ("app.kubernetes.io/name", "web") ∷ [];
  node_name = "a";
  phase = "Running";
  conditions = [];
}

-- The kubelet of the one node has a reading of the pod.
abbrev busy : Collector.Env
busy = record cluster {
  list_pods = λ t. ok (pod ∷ []);
  request_stats = λ t node. ok "{}";
  decode_summary = λ raw. ok (record {
    node = none;
    pods =
        record {
          name = "web-1";
          namespace = "tenant";
          cpu = none;
          memory = none;
          network = some (record { rx_bytes = some 7; tx_bytes = none });
        }
        ∷ [];
  });
}

abbrev sample : Sample
sample = record { name = "web"; metric = Collector.rx_metric; value = pos 7; sampled_at = 0 }

sampled : (Collector.collect busy []).0 ≡ ok (sample ∷ [])
unfolding Collector.collect Collector.sample_nodes Collector.node_samples Collector.pod_samples
    Collector.sample_of Collector.fetch_node_summary Collector.nodes_of Collector.want_of
    Collector.is_wanted Collector.workload_of Collector.has_text Collector.find_pod get_text lookup
sampled = refl

start-Reports_example : Reports busy [] 2 (Reporter.start (measuring busy) 2 [])
start-Reports_example = start-Reports busy 2 []

reports_sample :
    Reporter.start (measuring busy) 1 [] ≡ Reporter.reported (sample ∷ []) ∷ Reporter.collected ∷ []
unfolding Reporter.start Reporter.report_once fetches Collector.collect Collector.sample_nodes
    Collector.node_samples Collector.pod_samples Collector.sample_of Collector.fetch_node_summary
    Collector.nodes_of Collector.want_of Collector.is_wanted Collector.workload_of
    Collector.has_text Collector.find_pod get_text lookup
reports_sample = refl
