-- ===== src/Client/Calls.antt =====
-- internal/convexclient/client.go: the methods of `Client`.
use ai_cloud_operator.Base.{
  ◌/◌, String, List, [], ◌∷◌, map, Option, none, some, Bool, ◌||◌, eqb, concat, GoError, leaf,
  ErrorKind, Result, ok, err, if◌then◌else◌,
}
use ai_cloud_operator.Base.Effects.{M, return, ◌>>=◌}
use ai_cloud_operator.Capacity.Tracker.{Snapshot}
use ai_cloud_operator.Catalog.Registry.{templates}
use ai_cloud_operator.Operator.World.{
  Tokens, UsageSnapshot, ClaimableWorkload, PendingOperation, ClaimedWorkload, ClaimedOperation,
}
use ai_cloud_operator.Controller.World.{LifecyclePhase, WorkloadInfo}
use ai_cloud_operator.Metrics.Samples.{Sample}
use ai_cloud_operator.Client.Wire
use ai_cloud_operator.Client.Http.{Event, Env, Response, wrapped, post, bad_status}

abbrev pub unauthorized : GoError
unauthorized = leaf ErrorKind.unauthorized "convex rejected credential"

abbrev pub lifecycle_stale : GoError
lifecycle_stale = leaf ErrorKind.lifecycle_stale "workload not in an in-flight status"

-- strings.Join with a comma.
unfoldable pub joined : List String → String
joined [] = ""
joined (s ∷ []) = s
joined (s ∷ r ∷ rest) = let later = joined (r ∷ rest) in concat (s ∷ "," ∷ later ∷ [])

unfoldable pub tags_fingerprint : Option (List String) → String
tags_fingerprint none = "unset"
tags_fingerprint (some tags) = concat ("set:" ∷ joined tags ∷ [])

-- The capacity of a heartbeat; the live figures go only with a snapshot.
unfoldable pub capacity_of : Option Snapshot → Option UsageSnapshot → Option Wire.ResourceCapacity
capacity_of none live = none
capacity_of (some s) none = some (record {
  allocatable_milli_cpu = s.allocatable_milli_cpu;
  allocatable_memory_bytes = s.allocatable_memory_bytes;
  used_milli_cpu = s.used_milli_cpu;
  used_memory_bytes = s.used_memory_bytes;
  cluster_used_milli_cpu = none;
  cluster_used_memory_bytes = none;
  managed_used_milli_cpu = none;
  managed_used_memory_bytes = none;
  nodes_reporting = none;
  nodes_total = none;
})
capacity_of (some s) (some u) = some (record {
  allocatable_milli_cpu = s.allocatable_milli_cpu;
  allocatable_memory_bytes = s.allocatable_memory_bytes;
  used_milli_cpu = s.used_milli_cpu;
  used_memory_bytes = s.used_memory_bytes;
  cluster_used_milli_cpu = some u.cluster_used_milli_cpu;
  cluster_used_memory_bytes = some u.cluster_used_memory_bytes;
  managed_used_milli_cpu = some u.managed_used_milli_cpu;
  managed_used_memory_bytes = some u.managed_used_memory_bytes;
  nodes_reporting = some u.nodes_reporting;
  nodes_total = some u.nodes_total;
})

module _ (env : Env) where
  abbrev conclude : {A : Type 0} → Result Response → (Response → Result A) → M Event (Result A)
  conclude answered read = elim answered [ err e ↦ return (err e) | ok r ↦ return (read r) ]

  unfoldable pub read_registered : Response → Result Tokens
  read_registered r =
      if eqb r.status 200
      then elim (env.decode_register r.body) [
        | err e ↦ err (wrapped env "decoding " "register" " response" e)
        | ok out ↦ ok (record {
          heartbeat_token = out.heartbeat_token;
          deploy_token = out.deploy_token;
          catalog_hash = "";
          operator_version = "";
          tags_fingerprint = "";
        })
      ]
      else err (bad_status env "register" r.status)

  unfoldable pub register : String → M Event (Result Tokens)
  register secret = do
    answered ← post env "register" "/operators/register" none (
        Wire.register (record {
          name = env.config.operator_name;
          external_url = env.config.external_url;
          enrollment_secret = secret;
          metadata = env.config.metadata;
          catalog = templates env.lib;
          operator_version = env.config.version;
          tags = env.config.tags;
        }))
    conclude answered read_registered

  unfoldable pub read_heartbeat : Response → Result (List ClaimableWorkload × List PendingOperation)
  read_heartbeat r =
      if eqb r.status 200
      then elim (env.decode_heartbeat r.body) [
        | err e ↦ err (wrapped env "decoding " "heartbeat" " response" e)
        | ok out ↦ ok (out.claimable, out.pending_operations)
      ]
      else if eqb r.status 401 || eqb r.status 410
      then err unauthorized
      else err (bad_status env "heartbeat" r.status)

  unfoldable pub heartbeat :
      String
      → Option Snapshot
      → Option UsageSnapshot
      → M Event (Result (List ClaimableWorkload × List PendingOperation))
  heartbeat token snap live = do
    answered ← post env "heartbeat" "/operators/heartbeat" (some token) (
        Wire.heartbeat
          (record { name = env.config.operator_name; resource_capacity = capacity_of snap live }))
    conclude answered read_heartbeat

  -- The answers to the two claims: 404 and 409 say that it did not land.
  unfoldable pub read_claim :
      {A : Type 0} → String → (String → Result A) → Response → Result (Option A)
  read_claim what decode r =
      if eqb r.status 200
      then elim (decode r.body) [
        | err e ↦ err (wrapped env "decoding " what " response" e)
        | ok out ↦ ok (some out)
      ]
      else if eqb r.status 404 || eqb r.status 409
      then ok none
      else err (bad_status env what r.status)

  unfoldable pub claim_workload : String → String → M Event (Result (Option ClaimedWorkload))
  claim_workload token workload_id = do
    answered ←
        post env "claim workload" "/operators/workloads/claim" (some token)
          (Wire.claim_workload workload_id)
    conclude answered (read_claim "claim workload" env.decode_claimed_workload)

  unfoldable pub claim_operation : String → String → M Event (Result (Option ClaimedOperation))
  claim_operation token workload_id = do
    answered ←
        post env "claim operation" "/operators/workloads/claim-operation" (some token)
          (Wire.claim_operation workload_id)
    conclude answered (read_claim "claim operation" env.decode_claimed_operation)

  -- A call of which only success or failure matters.
  abbrev settle : Result Response → (Response → Option GoError) → M Event (Option GoError)
  settle answered read = elim answered [ err e ↦ return (some e) | ok r ↦ return (read r) ]

  unfoldable pub accepted : String → Response → Option GoError
  accepted what r = if eqb r.status 200 then none else some (bad_status env what r.status)

  unfoldable pub read_lifecycle : Response → Option GoError
  read_lifecycle r =
      if eqb r.status 409 then some lifecycle_stale else accepted "report lifecycle" r

  unfoldable pub report_lifecycle :
      String → String → String → LifecyclePhase → String → Bool → M Event (Option GoError)
  report_lifecycle token name workload_id phase reason retryable = do
    answered ← post env "report lifecycle" "/operators/workloads/lifecycle" (some token) (
        Wire.lifecycle (record {
          name = name;
          workload_id = workload_id;
          phase = phase;
          reason = reason;
          retryable = retryable;
        }))
    settle answered read_lifecycle

  unfoldable pub upsert_workload : String → WorkloadInfo → M Event (Option GoError)
  upsert_workload token info = do
    answered ← post env "upsert workload" "/operators/workloads/upsert" (some token) (
        Wire.upsert (record {
          name = info.name;
          namespace = info.namespace;
          template_id = info.template_name;
          user_id = info.user_id;
          subdomain = info.subdomain;
          workload_id = info.workload_id;
        }))
    settle answered (accepted "upsert workload")

  unfoldable pub read_verified : Response → Result String
  read_verified r =
      if eqb r.status 200
      then elim (env.decode_verified r.body) [
        | err e ↦ err (wrapped env "decoding " "verify gateway token" " response" e)
        | ok user_id ↦ ok user_id
      ]
      else err (bad_status env "verify gateway token" r.status)

  unfoldable pub verify_gateway_token : String → String → String → String → M Event (Result String)
  verify_gateway_token heartbeat_token token namespace name = do
    answered ←
        post env "verify gateway token" "/operators/gateway/verify" (some heartbeat_token)
          (Wire.verify_token token namespace name)
    conclude answered read_verified

  unfoldable pub remove_workload : String → String → String → M Event (Option GoError)
  remove_workload token name namespace = do
    answered ←
        post env "remove workload" "/operators/workloads/remove" (some token)
          (Wire.remove name namespace)
    settle answered (accepted "remove workload")

  abbrev pub wire_sample : Sample → Wire.MetricSample
  wire_sample s = record {
    name = s.name;
    metric = s.metric;
    value = s.value;
    sampled_at = s.sampled_at / 1000000;
  }

  -- Without samples there is no request.
  unfoldable pub report_metrics : String → List Sample → M Event (Option GoError)
  report_metrics token [] t = (none, t)
  report_metrics token (s ∷ ss) t =
      let answered =
        post env "metrics report" "/operators/metrics/report" (some token)
          (Wire.metrics (map wire_sample (s ∷ ss))) t in
      settle answered.0 (accepted "metrics report") answered.1
