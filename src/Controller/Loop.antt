-- ===== src/Controller/Loop.antt =====
-- internal/controller/workload_controller.go: the body of `Reconcile`, from its last step to its
-- first.
use ai_cloud_operator.Base.{
  String, none, some, Bool, ◌&&◌, GoError, errorf, ErrorKind, is_kind, ok, err, if◌then◌else◌,
}
use ai_cloud_operator.Base.Effects.{M, return, call, ◌>>=◌, ◌>>◌}
use ai_cloud_operator.Workload.{Workload}
use ai_cloud_operator.Catalog.Types.{Rendered}
use ai_cloud_operator.Controller.World.{
  Env, Event, got_workload, updated_workload, updated_status, got_deployment,
}
use ai_cloud_operator.Controller.Render.{selector_labels, render}
use ai_cloud_operator.Controller.Sync.{notify_removed, sync_convex, update_status}
use ai_cloud_operator.Controller.Reconcile.{
  Outcome, done, requeue, fail, is_settled, workload_finalizer, check_unschedulable, set_failed,
  set_failed_with_reason, render_reason, reconcile_delete, reconcile_deployment, reconcile_service,
}

module _ (env : Env) where
  -- From the read of the Deployment to the end. `synced` is the result of `syncConvex`.
  unfoldable pub finish : String → String → Workload → Bool → M Event Outcome
  finish namespace name w synced = do
    got ← call (got_deployment namespace name) (λ t. env.get_deployment t namespace name)
    elim got [
      | err e ↦ return (fail (errorf "getting deployment for status: " e ""))
      | ok d ↦ do
        r ← update_status env w d
        stored ← call (updated_status r.0) (λ t. env.update_status t r.0)
        elim stored [
          | err e ↦ return (fail (errorf "updating workload status: " e ""))
          | ok w' ↦ return (if is_settled w'.status.phase && synced && r.1 then done else requeue)
        ]
    ]

  -- From the check for pods that cannot be scheduled.
  unfoldable pub observe : String → String → Workload → M Event Outcome
  observe namespace name w = do
    released ← check_unschedulable env w (selector_labels w)
    if released then return done else do r ← sync_convex env w; finish namespace name r.0 r.1

  -- A failed write: a conflict is left to the manager's retry, any other error is reported.
  unfoldable pub write_failed : Workload → String → GoError → M Event Outcome
  write_failed w what e =
      if is_kind ErrorKind.conflict e then return (fail e) else set_failed env w (errorf what e "")

  unfoldable pub apply_objects : String → String → Workload → Rendered → M Event Outcome
  apply_objects namespace name w rendered = do
    failed ← reconcile_deployment env w rendered
    elim failed [
      | some e ↦ write_failed w "reconciling deployment: " e
      | none ↦ do
        failed' ← reconcile_service env w rendered
        elim failed' [
          | some e ↦ write_failed w "reconciling service: " e
          | none ↦ observe namespace name w
        ]
    ]

  -- From the computation of the labels.
  unfoldable pub reconcile_spec : String → String → Workload → M Event Outcome
  reconcile_spec namespace name w = elim (render env.lib w) [
    | err e ↦
        set_failed_with_reason env w (render_reason env e) (errorf "rendering workload: " e "")
    | ok rendered ↦ apply_objects namespace name w rendered
  ]

  -- A Workload that is not being deleted gets its finalizer first.
  unfoldable pub reconcile_live : String → String → Workload → M Event Outcome
  reconcile_live namespace name w =
      if env.contains_finalizer w.finalizers workload_finalizer
      then reconcile_spec namespace name w
      else do
        let held = record w { finalizers = env.add_finalizer w.finalizers workload_finalizer }
        stored ← call (updated_workload held) (λ t. env.update_workload t held)
        elim stored [
          | err e ↦ return (fail (errorf "adding finalizer: " e ""))
          | ok w' ↦ reconcile_spec namespace name w'
        ]

  unfoldable pub reconcile : String → String → M Event Outcome
  reconcile namespace name = do
    got ← call (got_workload namespace name) (λ t. env.get_workload t namespace name)
    elim got [
      | err e ↦
          if is_kind ErrorKind.not_found e
          then (notify_removed env namespace name >> return done)
          else return (fail (errorf "getting Workload: " e ""))
      | ok w ↦ if w.deleting then reconcile_delete env w else reconcile_live namespace name w
    ]
