-- ===== src/Controller/Repeating.antt =====
-- internal/controller/workload_controller.go: what a run of `Reconcile` does to a Workload that an
-- earlier run has settled.
use ai_cloud_operator.Base.{
  String, List, ◌∷◌, Bool, true, false, ◌≡◌, refl, ap, ◌∙◌, subst, inl, inr, ◌⊎◌, ok, Bool-cases,
  arith,
}
use ai_cloud_operator.Kube.{Deployment}
use ai_cloud_operator.Workload.{Workload, Phase, ConditionType}
use ai_cloud_operator.Controller.World.{
  Env, Event, LifecyclePhase, Labels, DeploymentWrite, ServiceWrite, ConditionLaws, got_workload,
  got_deployment, updated_status, wrote_deployment, wrote_service,
}
use ai_cloud_operator.Controller.Render.{selector_labels}
use ai_cloud_operator.Controller.Sync.{
  notify_lifecycle, is_synced, sync_convex, sync_lifecycle, settle, observed, update_status,
}
use ai_cloud_operator.Controller.Reconcile.{
  done, is_settled, workload_finalizer, check_unschedulable, reconcile_deployment,
  reconcile_service,
}
use ai_cloud_operator.Controller.Loop.{
  finish, observe, apply_objects, reconcile_spec, reconcile_live, reconcile,
}
use ai_cloud_operator.Controller.Syncing.{
  is_synced-with_condition_ne, lifecycle_condition-shape, sync_lifecycle_skip, sync_lifecycle_try,
  sync_convex_skip, sync_convex_recorded,
}
use ai_cloud_operator.Controller.Settling.{update_status-StatusLaw}
use ai_cloud_operator.Controller.Calm.{Settles, Applied}
use ai_cloud_operator.Controller.Steady.{settled_by, update_status-Settled, update_status_again}

-- The calls of a run that changes nothing.
abbrev pub FiveCalls : String → String → Workload → List Event → List Event → Type 0
FiveCalls namespace name v t t' =
    (dw : DeploymentWrite) × (sw : ServiceWrite) × (t'
      ≡ updated_status v
        ∷ got_deployment namespace name
        ∷ wrote_service sw
        ∷ wrote_deployment dw
        ∷ got_workload namespace name
        ∷ t)

module _ (env : Env) (laws : ConditionLaws env) where
  abbrev has_upsert : Workload → Bool
  has_upsert w = is_synced env ConditionType.convex_synced w

  sync_lifecycle-upsert :
      (w : Workload) (phase : LifecyclePhase) (t : List Event)
      → has_upsert (sync_lifecycle env w phase t).0.0 ≡ has_upsert w
  sync_lifecycle-upsert w phase t =
      elim (Bool-cases (is_synced env ConditionType.convex_lifecycle_synced w)) [
        | inl e ↦ rw (sync_lifecycle_skip env laws w phase t e) refl
        | inr e ↦
            let failed = (notify_lifecycle env w phase "" false t).0 in
            let kind = (lifecycle_condition-shape env laws w phase failed).0 in
            rw (sync_lifecycle_try env laws w phase t e) (
              is_synced-with_condition_ne env laws w _ ConditionType.convex_synced
                (rw kind (λ f. cc)))
      ]

  -- The record that Convex has the ownership info outlives `updateStatus`.
  update_status-upsert :
      (w : Workload) (d : Deployment) (t : List Event)
      → is_settled (update_status env w d t).0.0.status.phase ≡ true
      → has_upsert (update_status env w d t).0.0 ≡ has_upsert w
  unfolding settle is_synced
  update_status-upsert w d t h = elim (update_status-Settled env laws w d t h) [
    | settled_by p phase c told kind now again ↦ rw now (
        is_synced-with_condition_ne env laws _ c ConditionType.convex_synced (rw kind (λ f. cc))
        ∙ sync_lifecycle-upsert (observed env w d p) phase t)
  ]

  is_settled-cases : (p : Phase) → is_settled p ≡ true → (p ≡ Phase.running) ⊎ (p ≡ Phase.stopped)
  is_settled-cases Phase.running h = inl refl
  is_settled-cases Phase.stopped h = inr refl
  is_settled-cases p h = absurd (cc)

  check_unschedulable_skip :
      (v : Workload) (selector : Labels) (s : List Event)
      → (v.spec.suspended ≡ true) ⊎ (v.status.phase ≡ Phase.running)
      → check_unschedulable env v selector s ≡ (false, s)
  unfolding check_unschedulable
  check_unschedulable_skip v selector s (inl e) = ground arith
  check_unschedulable_skip v selector s (inr e) = ground arith

  check_unschedulable-settled :
      (w : Workload) (d : Deployment) (t : List Event) (selector : Labels) (s : List Event)
      → let v = (update_status env w d t).0.0 in
        is_settled v.status.phase ≡ true → check_unschedulable env v selector s ≡ (false, s)
  check_unschedulable-settled w d t selector s h =
      let v = (update_status env w d t).0.0 in
      let law = update_status-StatusLaw env laws w d t in
      check_unschedulable_skip v selector s (elim (is_settled-cases v.status.phase h) [
        | inl running ↦ inr running
        | inr stopped ↦
            inl (ap (λ (x : Workload). x.spec.suspended) law.kept ∙ (law.stopped.0 stopped).0)
      ])

  finish_steady :
      (namespace name : String) (v : Workload) (d : Deployment) (s : List Event)
      → env.get_deployment s namespace name ≡ ok d
      → ((t : List Event) → update_status env v d t ≡ ((v, true), t))
      → is_settled v.status.phase ≡ true
      → env.update_status (got_deployment namespace name ∷ s) v ≡ ok v
      → finish env namespace name v true s
        ≡ (done, updated_status v ∷ got_deployment namespace name ∷ s)
  unfolding finish
  finish_steady namespace name v d s got again settled stored =
      let fixed = again (got_deployment namespace name ∷ s) in ground arith

  Applied-FiveCalls :
      (namespace name : String) (v : Workload) (t s : List Event)
      → Applied env v (got_workload namespace name ∷ t) s
      → FiveCalls namespace name v t (updated_status v ∷ got_deployment namespace name ∷ s)
  unfolding reconcile_deployment reconcile_service
  Applied-FiveCalls namespace name v t s (rendered, known, first, second, same) =
      (_, _, ap (λ x. updated_status v ∷ got_deployment namespace name ∷ x) same)

  reconcile_steady :
      (namespace name : String) (v : Workload) (d : Deployment) (t s : List Event)
      → env.get_workload t namespace name ≡ ok v
      → v.deleting ≡ false
      → env.contains_finalizer v.finalizers workload_finalizer ≡ true
      → Applied env v (got_workload namespace name ∷ t) s
      → check_unschedulable env v (selector_labels v) s ≡ (false, s)
      → has_upsert v ≡ true
      → finish env namespace name v true s
        ≡ (done, updated_status v ∷ got_deployment namespace name ∷ s)
      → reconcile env namespace name t
        ≡ (done, updated_status v ∷ got_deployment namespace name ∷ s)
  unfolding reconcile reconcile_live reconcile_spec apply_objects observe
  reconcile_steady namespace name v d t s read live held (rendered, known, first, second, same) calm
        upsert end =
      let skip = sync_convex_skip env laws v s upsert in ground arith

  -- Once a run has settled a Workload, a later run that finds it as it was stored, with the same
  -- Deployment, ends as quietly: it makes five calls, none of them to Convex, writes the very
  -- status that is there, and asks neither for another run nor for a retry. The API server stores
  -- a status as it is sent, and takes the writes of the later run.
  pub reconcile_again :
      (namespace name : String) (w stored : Workload) (d : Deployment) (s t' : List Event)
      → Settles env namespace name w d stored s t'
      → (update_status env
          (sync_convex env w s).0.0
          d
          (got_deployment namespace name ∷ (sync_convex env w s).1)).0.0
        ≡ stored
      → (t r : List Event) → env.get_workload t namespace name ≡ ok stored
      → stored.deleting ≡ false
      → env.contains_finalizer stored.finalizers workload_finalizer ≡ true
      → Applied env stored (got_workload namespace name ∷ t) r
      → env.get_deployment r namespace name ≡ ok d
      → env.update_status (got_deployment namespace name ∷ r) stored ≡ ok stored
      → (after : List Event) × (reconcile env namespace name t ≡ (done, after))
        × FiveCalls namespace name stored t after
  reconcile_again namespace name w stored d s t' (read, synced, told, answered, phase, calls) same t
        r got live held applied found kept =
      let w' = (sync_convex env w s).0.0 in
      let before = got_deployment namespace name ∷ (sync_convex env w s).1 in
      let v = (update_status env w' d before).0.0 in
      let settled : is_settled v.status.phase ≡ true = rw same phase in
      let again = update_status_again env laws w' d before in
      let upsert : has_upsert stored ≡ true =
        subst (λ x. has_upsert x ≡ true) same
          (update_status-upsert w' d before settled ∙ sync_convex_recorded env laws w s ∙ synced) in
      (
        updated_status stored ∷ got_deployment namespace name ∷ r,
        reconcile_steady namespace name stored d t r got live held applied
            (subst (λ x. check_unschedulable env x (selector_labels x) r ≡ (false, r)) same
              (check_unschedulable-settled w' d before (selector_labels v) r settled))
            upsert
            (finish_steady namespace name stored d r found
              (λ later.
                subst (λ x. update_status env x d later ≡ ((x, true), later)) same
                  (again later settled told))
              phase kept),
        Applied-FiveCalls namespace name stored t r applied,
      )
