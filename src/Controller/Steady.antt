-- ===== src/Controller/Steady.antt =====
-- internal/controller/workload_controller.go: the status of a settled Workload is a fixed point of
-- `updateStatus`.
use ai_cloud_operator.Base.{
  List, some, Bool, true, false, ◌&&◌, ◌≡◌, refl, sym, ap, ◌∙◌, subst, inl, inr, Bool-cases,
}
use ai_cloud_operator.Base.Int.{pos, leb_ℤ, ltb_ℤ}
use ai_cloud_operator.Kube.{Deployment}
use ai_cloud_operator.Workload.{Workload, Phase, Reason, Condition, ConditionType}
use ai_cloud_operator.Controller.World.{Env, Event, LifecyclePhase, ConditionLaws}
use ai_cloud_operator.Controller.Render.{is_zero, desired_replica_count}
use ai_cloud_operator.Controller.Sync.{
  with_status, ready_condition, with_condition, is_synced, sync_lifecycle, settle, observed,
  update_status,
}
use ai_cloud_operator.Controller.Reconcile.{is_settled}
use ai_cloud_operator.Controller.Syncing.{
  is_synced-with_condition_ne, sync_lifecycle_skip, sync_lifecycle_recorded,
}
use ai_cloud_operator.Controller.Settling.{settle_lem}

-- How Convex is told of a settled phase.
abbrev pub lifecycle_of : Phase → LifecyclePhase
lifecycle_of Phase.running = LifecyclePhase.active
lifecycle_of Phase.stopped = LifecyclePhase.stopped
lifecycle_of _ = LifecyclePhase.failed

module _ (env : Env) (laws : ConditionLaws env) where
  with_condition-found :
      (w : Workload) (c : Condition)
      → env.find_condition w.status.conditions c.kind ≡ some c
      → with_condition env w c ≡ w
  unfolding with_condition
  with_condition-found w c found =
      let e = laws.set-found w.status.conditions c found in
      λ i. with_status w (record (w.status) { conditions = e i })

  -- Where the report is in, a second look at the same phase changes nothing and calls nobody.
  settle_again :
      (w : Workload) (phase : LifecyclePhase) (c : Condition) (t t' : List Event)
      → c.kind ≡ ConditionType.ready
      → (settle env w phase c t).0.1 ≡ true
      → let v = (settle env w phase c t).0.0 in settle env v phase c t' ≡ ((v, true), t')
  unfolding settle
  settle_again w phase c t t' kind synced =
      let r = sync_lifecycle env w phase t in
      let v = with_condition env r.0.0 c in
      let told : is_synced env ConditionType.convex_lifecycle_synced v ≡ true =
        is_synced-with_condition_ne env laws r.0.0 c ConditionType.convex_lifecycle_synced
          (rw kind (λ e. cc))
        ∙ sync_lifecycle_recorded env laws w phase t
        ∙ synced in
      let found = (settle_lem env laws w phase c t).1 in
      rw (sync_lifecycle_skip env laws v phase t' told)
        (λ i. ((with_condition-found v c found i, true), t'))

  -- The status with these conditions, in a phase that suits the Deployment.
  abbrev pub status_of : Workload → Deployment → Phase → List Condition → Workload
  status_of w d p cs = with_status w (record (w.status) {
    phase = p;
    ready_replicas = d.ready_replicas;
    observed_generation = w.generation;
    conditions = cs;
  })

  desired-status_of :
      (w : Workload) (d : Deployment) (cs : List Condition)
      → desired_replica_count (status_of w d Phase.running cs) ≡ desired_replica_count w
  unfolding desired_replica_count
  desired-status_of w d cs = refl

  -- In a settled phase `updateStatus` is `settle`, of a phase and a condition that only the spec,
  -- the generation and the Deployment determine.
  pub data Settled (w : Workload) (d : Deployment) (t : List Event) : Type 0 where
    settled_by :
        (p : Phase) (phase : LifecyclePhase) (c : Condition)
        → phase ≡ lifecycle_of p
        → c.kind ≡ ConditionType.ready
        → update_status env w d t ≡ settle env (observed env w d p) phase c t
        → ((cs : List Condition) (t' : List Event)
            → update_status env (status_of w d p cs) d t'
              ≡ settle env (status_of w d p cs) phase c t')
        → Settled w d t

  pub update_status-Settled :
      (w : Workload) (d : Deployment) (t : List Event)
      → is_settled (update_status env w d t).0.0.status.phase ≡ true
      → Settled w d t
  unfolding update_status with_condition
  update_status-Settled w d t h = elim (Bool-cases (w.spec.suspended && is_zero d.ready_replicas)) [
    | inl e ↦
        settled_by Phase.stopped LifecyclePhase.stopped
          (ready_condition env w false Reason.workload_suspended
            "workload is intentionally stopped (spec.suspended=true)")
          refl refl (rw (e, update_status) refl) (λ cs t'. rw (e, update_status) refl)
    | inr e ↦
        elim (Bool-cases (
          ltb_ℤ (pos 0) (desired_replica_count w)
          && leb_ℤ (desired_replica_count w) d.ready_replicas)) [
            | inl f ↦
                settled_by Phase.running LifecyclePhase.active
                  (ready_condition env w true Reason.deployment_ready
                    "backing Deployment has reached the desired ready replica count")
                  refl refl (rw (e, f, update_status) refl)
                  (λ cs t'. rw (e, update_status) (rw (desired-status_of w d cs, f) refl))
            | inr f ↦
                let waiting : (update_status env w d t).0.0.status.phase ≡ Phase.deploying =
                  rw (e, f, update_status) refl in
                let unsettled : is_settled Phase.deploying ≡ true = rw waiting at h in cc
          ]
  ]

  -- A status that was written in a settled phase, with the report in, is written again as it is.
  pub update_status_again :
      (w : Workload) (d : Deployment) (t t' : List Event)
      → let r = update_status env w d t in
        is_settled r.0.0.status.phase ≡ true
        → r.0.1 ≡ true
        → update_status env r.0.0 d t' ≡ ((r.0.0, true), t')
  update_status_again w d t t' h synced = elim (update_status-Settled w d t h) [
    | settled_by p phase c told kind now again ↦
        let r = settle env (observed env w d p) phase c t in
        let kept = (settle_lem env laws (observed env w d p) phase c t).0 in
        let resettled =
          settle_again (observed env w d p) phase c t t' kind
            (sym (ap (λ (x : (Workload × Bool) × List Event). x.0.1) now) ∙ synced) in
        rw now (
          subst (λ x. update_status env x d t' ≡ settle env x phase c t') (sym kept)
            (again r.0.0.status.conditions t')
          ∙ resettled)
  ]
