-- ===== src/Controller/Failing.antt =====
-- internal/controller/workload_controller.go: conflicts, which are retried in silence, and the
-- failures that are shown and reported.
use ai_cloud_operator.Base.{
  String, List, ◌∷◌, none, some, true, false, ◌≡◌, ◌≢◌, ◌⊎◌, ok, err, GoError, message, ErrorKind,
  is_kind, arith,
}
use ai_cloud_operator.Workload.{Workload, Phase, Reason, Condition, ConditionType}
use ai_cloud_operator.Catalog.Types.{Rendered}
use ai_cloud_operator.Catalog.Registry.{get}
use ai_cloud_operator.Controller.World.{Env, Event, LifecyclePhase, updated_status}
use ai_cloud_operator.Controller.Render.{render}
use ai_cloud_operator.Controller.Sync.{with_status, notify_lifecycle}
use ai_cloud_operator.Controller.Reconcile.{Outcome, fail, reconcile_deployment, reconcile_service}
use ai_cloud_operator.Controller.Loop.{write_failed, apply_objects, reconcile_spec}

module _ (env : Env) where
  -- A conflict on either write is returned bare: after the writes themselves the run calls nobody,
  -- so neither the status nor Convex hears of it.
  pub reconcile_spec_conflict :
      (namespace name : String) (w : Workload) (rendered : Rendered) (e : GoError) (t : List Event)
      → let first = reconcile_deployment env w rendered t in
        let second = reconcile_service env w rendered first.1 in
        render env.lib w ≡ ok rendered
        → is_kind ErrorKind.conflict e ≡ true
        → (first.0 ≡ some e → reconcile_spec env namespace name w t ≡ (fail e, first.1))
          × (first.0 ≡ none
              → second.0 ≡ some e
              → reconcile_spec env namespace name w t ≡ (fail e, second.1))
  unfolding reconcile_spec apply_objects write_failed
  reconcile_spec_conflict namespace name w rendered e t r c =
      (λ f. ground arith, λ f g. ground arith)

  -- The two mistakes of a user that have reasons of their own.
  abbrev pub Misconfigured : Workload → Reason → Type 0
  Misconfigured w reason =
      ((w.spec.template_name ≡ "") × (w.spec.image ≡ "") × (reason ≡ Reason.invalid_spec))
      ⊎ ((w.spec.template_name ≢ "")
          × (get env.lib w.spec.template_name ≡ none)
          × (reason ≡ Reason.unknown_template))

  -- The object as the server stored it, or as it was sent where the update failed.
  abbrev pub reporter : Workload → List Event → Workload
  reporter shown t = elim (env.update_status t shown) [ ok stored ↦ stored | err _ ↦ shown ]

  -- What a failed run leaves behind.
  pub record FailureShown (w : Workload) (reason : Reason) (t : List Event)
      (r : Outcome × List Event) : Type 0 where
    pub error : GoError
    pub returned : r.0 ≡ fail error
    pub shown : Workload
    pub kept : shown ≡ with_status w shown.status
    pub phase : shown.status.phase ≡ Phase.failed
    pub condition : Condition
    pub is_ready : env.find_condition shown.status.conditions ConditionType.ready ≡ some condition
    pub status : condition.status ≡ false
    pub shown_reason : condition.reason ≡ reason
    pub text : condition.message ≡ message error
    pub order :
        r.1
        ≡ (notify_lifecycle env
            (reporter shown t)
            LifecyclePhase.failed
            (message error)
            false
            (updated_status shown ∷ t)).1
