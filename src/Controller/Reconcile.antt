-- ===== src/Controller/Reconcile.antt =====
-- internal/controller/workload_controller.go: `Reconcile` and the steps that it is made of.
use ai_cloud_operator.Base.{
  ℕ, String, List, [], ◌∷◌, Option, none, some, Bool, true, false, not, ◌&&◌, ◌||◌, ◌==◌, ◌-◌, ◌*◌,
  leb, concat, GoError, errorf, message, ErrorKind, is_kind, ok, err, if◌then◌else◌,
}
use ai_cloud_operator.Base.Effects.{M, return, call, ◌>>=◌, ◌>>◌}
use ai_cloud_operator.Kube.{Pod, PodCondition}
use ai_cloud_operator.Workload.{Workload, Phase, ConditionType, Reason}
use ai_cloud_operator.Catalog.Types.{Rendered}
use ai_cloud_operator.Controller.World.{
  Env, Event, LifecyclePhase, Labels, DeploymentWrite, ServiceWrite, updated_workload,
  updated_status, deleted_workload, listed_pods, wrote_deployment, wrote_service,
}
use ai_cloud_operator.Controller.Render.{
  is_zero, desired_replica_count, selector_labels, object_labels,
}
use ai_cloud_operator.Controller.Sync.{
  with_status, notify_lifecycle, notify_removed, with_condition,
}

-- Nanoseconds.
abbrev pub second : ℕ
second = 1000000000

abbrev pub status_requeue_interval : ℕ
status_requeue_interval = 10 * second

abbrev pub unschedulable_grace_period : ℕ
unschedulable_grace_period = 180 * second

abbrev pub workload_finalizer : String
workload_finalizer = "apps.aicloud.dev/workload-finalizer"

-- (ctrl.Result, error).
pub record Outcome : Type 0 where
  pub requeue_after : ℕ
  pub error : Option GoError

abbrev pub done : Outcome
done = record { requeue_after = 0; error = none }

abbrev pub requeue : Outcome
requeue = record { requeue_after = status_requeue_interval; error = none }

abbrev pub fail : GoError → Outcome
fail e = record { requeue_after = 0; error = some e }

abbrev pub is_running : Phase → Bool
is_running Phase.running = true
is_running _ = false

abbrev pub is_settled : Phase → Bool
is_settled Phase.running = true
is_settled Phase.stopped = true
is_settled _ = false

-- The pod could not be scheduled for the whole grace period. A transition in the future counts as
-- no time at all.
unfoldable pub is_stuck : ℕ → PodCondition → Bool
is_stuck now c =
    c.kind == "PodScheduled"
    && c.status == "False"
    && c.reason == "Unschedulable"
    && leb unschedulable_grace_period (now - c.last_transition_time)

-- The two loops: the last stuck condition gives the message.
unfoldable pub stuck_in_pod : ℕ → List PodCondition → String → String
stuck_in_pod now [] found = found
stuck_in_pod now (c ∷ cs) found = stuck_in_pod now cs (if is_stuck now c then c.message else found)

unfoldable pub stuck_message : ℕ → List Pod → String → String
stuck_message now [] found = found
stuck_message now (p ∷ ps) found = stuck_message now ps (stuck_in_pod now p.conditions found)

abbrev pub capacity_reason : String → String
capacity_reason text = concat ("insufficient cluster capacity: " ∷ text ∷ [])

module _ (env : Env) where
  -- The end of `checkUnschedulable`: report, then delete.
  unfoldable pub release_claim : Workload → String → M Event Bool
  release_claim w text = do
    refused ← notify_lifecycle env w LifecyclePhase.failed (capacity_reason text) true
    elim refused [
      | some _ ↦ return false
      | none ↦ do
        deleted ← call (deleted_workload w) (λ t. env.delete_workload t w)
        elim deleted [ none ↦ return true | some e ↦ return (is_kind ErrorKind.not_found e) ]
    ]

  unfoldable pub check_unschedulable : Workload → Labels → M Event Bool
  check_unschedulable w selector =
      if w.spec.suspended || is_zero (desired_replica_count w) || is_running w.status.phase
      then return false
      else do
        listed ← call (listed_pods w.namespace selector) (λ t. env.list_pods t w.namespace selector)
        now ← λ t. (env.now t, t)
        elim listed [
          | err _ ↦ return false
          | ok pods ↦
              let text = stuck_message now pods "" in
              if text == "" then return false else release_claim w text
        ]

  unfoldable pub set_failed_with_reason : Workload → Reason → GoError → M Event Outcome
  set_failed_with_reason w reason e = do
    let failed =
        with_condition env
          (with_status w
            (record (w.status) { phase = Phase.failed; observed_generation = w.generation }))
          (record {
            kind = ConditionType.ready;
            status = false;
            reason = reason;
            message = message e;
            observed_generation = w.generation;
          })
    stored ← call (updated_status failed) (λ t. env.update_status t failed)
    notify_lifecycle env (elim stored [ ok w' ↦ w' | err _ ↦ failed ]) LifecyclePhase.failed
        (message e) false
    return (fail e)

  unfoldable pub set_failed : Workload → GoError → M Event Outcome
  set_failed w e = set_failed_with_reason w Reason.reconcile_error e

  -- The reason under which a failure to render is shown.
  unfoldable pub render_reason : GoError → Reason
  render_reason e =
      if is_kind ErrorKind.image_required e
      then Reason.invalid_spec
      else if is_kind ErrorKind.template_unknown e
      then Reason.unknown_template
      else Reason.reconcile_error

  unfoldable pub reconcile_delete : Workload → M Event Outcome
  reconcile_delete w =
      if not (env.contains_finalizer w.finalizers workload_finalizer) then return done else do
        refused ← notify_removed env w.namespace w.name
        elim refused [
          | some _ ↦ return requeue
          | none ↦ do
            let released = record w {
              finalizers = env.remove_finalizer w.finalizers workload_finalizer;
            }
            stored ← call (updated_workload released) (λ t. env.update_workload t released)
            elim stored [
              | err e ↦ return (fail (errorf "removing workload finalizer: " e ""))
              | ok _ ↦ return done
            ]
        ]

  unfoldable pub reconcile_deployment : Workload → Rendered → M Event (Option GoError)
  reconcile_deployment w rendered = do
    let write : DeploymentWrite = record {
      name = w.name;
      namespace = w.namespace;
      labels = object_labels w;
      replicas = desired_replica_count w;
      selector = selector_labels w;
      template_labels = object_labels w;
      containers = rendered.containers;
      init_containers = rendered.init_containers;
      volumes = rendered.volumes;
      owner = w.uid;
    }
    call (wrote_deployment write) (λ t. env.write_deployment t write)

  unfoldable pub reconcile_service : Workload → Rendered → M Event (Option GoError)
  reconcile_service w rendered = do
    let write : ServiceWrite = record {
      name = w.name;
      namespace = w.namespace;
      labels = object_labels w;
      selector = selector_labels w;
      ports = rendered.service_ports;
      owner = w.uid;
    }
    call (wrote_service write) (λ t. env.write_service t write)
