-- ===== src/Controller/Settling.antt =====
-- internal/controller/workload_controller.go: the phase and the Ready condition that `updateStatus`
-- computes from the observed Deployment.
use ai_cloud_operator.Base.{
  List, some, Bool, true, ◌&&◌, ◌≡◌, ◌≢◌, refl, ◌↔◌, ◌∙◌, sym, ap, inl, inr, Bool-cases, arith,
  if◌then◌else◌,
}
use ai_cloud_operator.Base.Int.{pos, ◌≤ℤ◌, leb_ℤ, ltb_ℤ}
use ai_cloud_operator.Kube.{Deployment}
use ai_cloud_operator.Workload.{Workload, Phase, Condition, ConditionType}
use ai_cloud_operator.Controller.World.{Env, Event, LifecyclePhase, ConditionLaws}
use ai_cloud_operator.Controller.Render.{is_zero, desired_replica_count}
use ai_cloud_operator.Controller.Sync.{
  with_status, with_condition, is_synced, sync_lifecycle, update_status, settle, observed,
}
use ai_cloud_operator.Controller.Reconcile.{is_running}
use ai_cloud_operator.Controller.Syncing.{sync_lifecycle_skip, sync_lifecycle_try}

-- The second Workload is the first, but for the list of conditions.
abbrev pub SameButConditions : Workload → Workload → Type 0
SameButConditions w v = v ≡ with_status w (record (w.status) { conditions = v.status.conditions })

module _ (env : Env) (laws : ConditionLaws env) where
  pub sync_lifecycle-SameButConditions :
      (w : Workload) (phase : LifecyclePhase) (t : List Event)
      → SameButConditions w (sync_lifecycle env w phase t).0.0
  unfolding with_condition
  sync_lifecycle-SameButConditions w phase t =
      elim (Bool-cases (is_synced env ConditionType.convex_lifecycle_synced w)) [
        | inl e ↦ rw (sync_lifecycle_skip env laws w phase t e) refl
        | inr e ↦ rw (sync_lifecycle_try env laws w phase t e) refl
      ]

  pub settle_lem :
      (w : Workload) (phase : LifecyclePhase) (c : Condition) (t : List Event)
      → let v = (settle env w phase c t).0.0 in
        SameButConditions w v × (env.find_condition v.status.conditions c.kind ≡ some c)
  unfolding settle with_condition
  settle_lem w phase c t = (rw (sync_lifecycle-SameButConditions w phase t) refl, laws.find-set _ c)

  abbrev is_up : Workload → Deployment → Bool
  is_up w d =
      ltb_ℤ (pos 0) (desired_replica_count w) && leb_ℤ (desired_replica_count w) d.ready_replicas

  -- The phase that the code's three cases choose.
  chosen : Workload → Deployment → Phase
  chosen w d =
      if w.spec.suspended && is_zero d.ready_replicas
      then Phase.stopped
      else if ltb_ℤ (pos 0) (desired_replica_count w)
          && leb_ℤ (desired_replica_count w) d.ready_replicas
      then Phase.running
      else Phase.deploying

  chosen_stopped :
      (w : Workload) (d : Deployment)
      → (chosen w d ≡ Phase.stopped) ↔ ((w.spec.suspended ≡ true) × (d.ready_replicas ≡ pos 0))
  unfolding chosen
  chosen_stopped w d = (λ e. (ground arith, ground arith), λ (s, z). ground arith)

  chosen_running :
      (w : Workload) (d : Deployment)
      → (chosen w d ≡ Phase.running)
        ↔ ((pos 1 ≤ℤ desired_replica_count w) × (desired_replica_count w ≤ℤ d.ready_replicas))
  unfolding chosen desired_replica_count
  chosen_running w d = (λ e. (ground arith, ground arith), λ (p, q). ground arith)

  -- The outcome of `updateStatus`, with the condition that it has set.
  record Outcome (w : Workload) (d : Deployment) (v : Workload) : Type 0 where
    kept : SameButConditions (observed env w d (chosen w d)) v
    ready : Condition
    is_ready : env.find_condition v.status.conditions ConditionType.ready ≡ some ready
    status : ready.status ≡ is_running (chosen w d)
    generation : ready.observed_generation ≡ w.generation

  settled_outcome :
      (w : Workload) (d : Deployment) (v : Workload) (p : Phase) (c : Condition)
      → chosen w d ≡ p
      → SameButConditions (observed env w d p) v
      → env.find_condition v.status.conditions ConditionType.ready ≡ some c
      → c.status ≡ is_running p
      → c.observed_generation ≡ w.generation
      → Outcome w d v
  settled_outcome w d v p c e kept found status generation = record {
    kept = rw e kept;
    ready = c;
    is_ready = found;
    status = rw e status;
    generation = generation;
  }

  update_status-Outcome :
      (w : Workload) (d : Deployment) (t : List Event) → Outcome w d (update_status env w d t).0.0
  unfolding chosen update_status with_condition
  update_status-Outcome w d t = elim (Bool-cases (w.spec.suspended && is_zero d.ready_replicas)) [
    | inl e ↦
        let (kept, found) =
          settle_lem (observed env w d Phase.stopped) LifecyclePhase.stopped _ t in
        rw (e, update_status)
          (settled_outcome w d _ Phase.stopped _ (rw (e, chosen)) kept found refl refl)
    | inr e ↦ elim (Bool-cases (is_up w d)) [
      | inl f ↦
          let (kept, found) =
            settle_lem (observed env w d Phase.running) LifecyclePhase.active _ t in
          rw (e, f, update_status)
            (settled_outcome w d _ Phase.running _ (rw (e, f, chosen)) kept found refl refl)
      | inr f ↦
          rw (e, f, update_status)
            (settled_outcome w d _ Phase.deploying _ (rw (e, f, chosen)) refl
              (laws.find-set w.status.conditions _) refl refl)
    ]
  ]

  -- What `updateStatus` promises: it writes the status alone; the phase is Stopped exactly when the
  -- Workload is suspended and no replica is ready, Running exactly when at least one replica is
  -- wanted and all wanted ones are ready, and else Deploying; the Ready condition is true exactly
  -- in Running; and the status is stamped with the generation.
  pub record StatusLaw (w : Workload) (d : Deployment) (v : Workload) : Type 0 where
    pub kept : v ≡ with_status w v.status
    pub replicas : v.status.ready_replicas ≡ d.ready_replicas
    pub stamped : v.status.observed_generation ≡ w.generation
    pub stopped :
        (v.status.phase ≡ Phase.stopped) ↔ ((w.spec.suspended ≡ true) × (d.ready_replicas ≡ pos 0))
    pub running :
        (v.status.phase ≡ Phase.running)
        ↔ ((pos 1 ≤ℤ desired_replica_count w) × (desired_replica_count w ≤ℤ d.ready_replicas))
    pub deploying :
        v.status.phase ≢ Phase.stopped
        → v.status.phase ≢ Phase.running
        → v.status.phase ≡ Phase.deploying
    pub condition : Condition
    pub is_ready : env.find_condition v.status.conditions ConditionType.ready ≡ some condition
    pub truth : (condition.status ≡ true) ↔ (v.status.phase ≡ Phase.running)
    pub generation : condition.observed_generation ≡ w.generation

  chosen_deploying :
      (w : Workload) (d : Deployment)
      → chosen w d ≢ Phase.stopped
      → chosen w d ≢ Phase.running
      → chosen w d ≡ Phase.deploying
  unfolding chosen
  chosen_deploying w d p q = ground arith

  is_running_iff : (p : Phase) → (is_running p ≡ true) ↔ (p ≡ Phase.running)
  is_running_iff Phase.running = (λ e. refl, λ e. refl)
  is_running_iff p = (λ e. cc, λ e. cc)

  -- Whatever Convex answers, `updateStatus` writes the status alone; the phase is Stopped exactly
  -- when the Workload is suspended and no replica is ready, Running exactly when at least one
  -- replica is wanted and all wanted ones are ready, and else Deploying; the Ready condition is
  -- true exactly in Running; and the status is stamped with the generation.
  pub update_status-StatusLaw :
      (w : Workload) (d : Deployment) (t : List Event) → StatusLaw w d (update_status env w d t).0.0
  update_status-StatusLaw w d t =
      let o = update_status-Outcome w d t in
      let phase = ap (λ (v : Workload). v.status.phase) o.kept in
      record {
        kept = o.kept ∙ sym (ap (λ (v : Workload). with_status w v.status) o.kept);
        replicas = ap (λ (v : Workload). v.status.ready_replicas) o.kept;
        stamped = ap (λ (v : Workload). v.status.observed_generation) o.kept;
        stopped = rw phase (chosen_stopped w d);
        running = rw phase (chosen_running w d);
        deploying = rw phase (chosen_deploying w d);
        condition = o.ready;
        is_ready = o.is_ready;
        truth = rw (o.status, phase) (is_running_iff (chosen w d));
        generation = o.generation;
      }
