-- ===== src/Controller/Sync.antt =====
-- internal/controller/workload_controller.go: telling Convex, and the status conditions.
use ai_cloud_operator.Base.{
  String, [], ◌∷◌, Option, none, some, Bool, true, false, ◌&&◌, eqb, concat, get_text, GoError,
  message, ErrorKind, is_kind, if◌then◌else◌,
}
use ai_cloud_operator.Base.Effects.{M, return, call, ◌>>=◌}
use ai_cloud_operator.Base.Int.{pos, leb_ℤ, ltb_ℤ}
use ai_cloud_operator.Kube.{Deployment}
use ai_cloud_operator.Workload.{Workload, WorkloadStatus, Phase, Condition, ConditionType, Reason}
use ai_cloud_operator.Controller.World.{
  Env, Event, LifecyclePhase, WorkloadInfo, upserted_workload, reported_lifecycle, removed_workload,
}
use ai_cloud_operator.Controller.Render.{is_zero, desired_replica_count}

abbrev pub workload_id_of : Workload → String
workload_id_of w = get_text "apps.aicloud.dev/workload-id" w.labels

abbrev pub info_of : Workload → WorkloadInfo
info_of w = record {
  name = w.name;
  namespace = w.namespace;
  subdomain = w.spec.subdomain;
  template_name = w.spec.template_name;
  user_id = w.spec.user_id;
  workload_id = workload_id_of w;
}

abbrev pub phase_text : LifecyclePhase → String
phase_text LifecyclePhase.active = "active"
phase_text LifecyclePhase.failed = "failed"
phase_text LifecyclePhase.stopped = "stopped"

abbrev pub with_status : Workload → WorkloadStatus → Workload
with_status w s = record w { status = s }

module _ (env : Env) where
  unfoldable pub notify_upserted : Workload → M Event (Option GoError)
  notify_upserted w =
      if env.convex_attached
      then call (upserted_workload (info_of w)) (λ t. env.upsert_workload t (info_of w))
      else return none

  unfoldable pub notify_lifecycle :
      Workload → LifecyclePhase → String → Bool → M Event (Option GoError)
  notify_lifecycle w phase reason retryable =
      if env.convex_attached
      then call (reported_lifecycle w.name (workload_id_of w) phase reason retryable)
          (λ t. env.report_lifecycle t w.name (workload_id_of w) phase reason retryable)
      else return none

  unfoldable pub notify_removed : String → String → M Event (Option GoError)
  notify_removed namespace name =
      if env.convex_attached
      then call (removed_workload name namespace) (λ t. env.remove_workload t name namespace)
      else return none

  -- apimeta.SetStatusCondition on the Workload's own list.
  unfoldable pub with_condition : Workload → Condition → Workload
  with_condition w c =
      with_status w (record (w.status) { conditions = env.set_condition w.status.conditions c })

  -- The condition is true and was observed at this generation.
  unfoldable pub is_synced : ConditionType → Workload → Bool
  is_synced kind w = elim (env.find_condition w.status.conditions kind) [
    | none ↦ false
    | some c ↦ c.status && eqb c.observed_generation w.generation
  ]

  unfoldable pub upsert_condition : Workload → Option GoError → Condition
  upsert_condition w none = record {
    kind = ConditionType.convex_synced;
    status = true;
    reason = Reason.notified;
    message = "Convex has this workload's current ownership info";
    observed_generation = w.generation;
  }
  upsert_condition w (some e) = record {
    kind = ConditionType.convex_synced;
    status = false;
    reason = Reason.notify_failed;
    message = message e;
    observed_generation = w.generation;
  }

  unfoldable pub sync_convex : Workload → M Event (Workload × Bool)
  sync_convex w = if is_synced ConditionType.convex_synced w then return (w, true) else do
    failed ← notify_upserted w
    let c = upsert_condition w failed
    return (with_condition w c, c.status)

  unfoldable pub lifecycle_condition : Workload → LifecyclePhase → Option GoError → Condition
  lifecycle_condition w phase none = record {
    kind = ConditionType.convex_lifecycle_synced;
    status = true;
    reason = Reason.notified;
    message = concat ("Convex has been told this workload is " ∷ phase_text phase ∷ []);
    observed_generation = w.generation;
  }
  lifecycle_condition w phase (some e) =
      if is_kind ErrorKind.lifecycle_stale e
      then record {
        kind = ConditionType.convex_lifecycle_synced;
        status = true;
        reason = Reason.already_resolved;
        message = "Convex already reflects this workload's current phase from an earlier report";
        observed_generation = w.generation;
      }
      else record {
        kind = ConditionType.convex_lifecycle_synced;
        status = false;
        reason = Reason.notify_failed;
        message = message e;
        observed_generation = w.generation;
      }

  unfoldable pub sync_lifecycle : Workload → LifecyclePhase → M Event (Workload × Bool)
  sync_lifecycle w phase =
      if is_synced ConditionType.convex_lifecycle_synced w then return (w, true) else do
        failed ← notify_lifecycle w phase "" false
        let c = lifecycle_condition w phase failed
        return (with_condition w c, c.status)

  abbrev pub ready_condition : Workload → Bool → Reason → String → Condition
  ready_condition w status reason text = record {
    kind = ConditionType.ready;
    status = status;
    reason = reason;
    message = text;
    observed_generation = w.generation;
  }

  -- A settled phase is reported to Convex before the Ready condition is written.
  unfoldable pub settle : Workload → LifecyclePhase → Condition → M Event (Workload × Bool)
  settle w phase ready = do r ← sync_lifecycle w phase; return (with_condition r.0 ready, r.1)

  -- The fields of the status that are written in every case.
  abbrev pub observed : Workload → Deployment → Phase → Workload
  observed w d phase = with_status w (record (w.status) {
    phase = phase;
    ready_replicas = d.ready_replicas;
    observed_generation = w.generation;
  })

  unfoldable pub update_status : Workload → Deployment → M Event (Workload × Bool)
  update_status w d =
      let desired = desired_replica_count w in
      if w.spec.suspended && is_zero d.ready_replicas
      then settle (observed w d Phase.stopped) LifecyclePhase.stopped (
          ready_condition w false Reason.workload_suspended
            "workload is intentionally stopped (spec.suspended=true)")
      else if ltb_ℤ (pos 0) desired && leb_ℤ desired d.ready_replicas
      then settle (observed w d Phase.running) LifecyclePhase.active (
          ready_condition w true Reason.deployment_ready
            "backing Deployment has reached the desired ready replica count")
      else return (
        with_condition (observed w d Phase.deploying) (
            ready_condition w false Reason.deployment_progressing (
              concat (
                env.lib.show_int d.ready_replicas
                ∷ "/"
                ∷ env.lib.show_int desired
                ∷ " replicas ready"
                ∷ []))),
        true,
      )
