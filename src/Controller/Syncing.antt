-- ===== src/Controller/Syncing.antt =====
-- internal/controller/workload_controller.go: the Convex conditions, and the status of a Workload.
use ai_cloud_operator.Base.{
  List, Option, none, some, true, false, ◌≡◌, ◌≢◌, refl, ◌∙◌, inl, inr, GoError, ErrorKind, is_kind,
  Bool-cases, arith,
}
use ai_cloud_operator.Workload.{Workload, Condition, ConditionType}
use ai_cloud_operator.Controller.World.{Env, Event, LifecyclePhase, ConditionLaws}
use ai_cloud_operator.Controller.Sync.{
  with_condition, is_synced, upsert_condition, sync_convex, lifecycle_condition, sync_lifecycle,
  notify_upserted, notify_lifecycle,
}

module _ (env : Env) (laws : ConditionLaws env) where
  -- Writing a condition makes the Workload synced for its kind exactly when it is true.
  is_synced-with_condition :
      (w : Workload) (c : Condition) (k : ConditionType)
      → c.kind ≡ k
      → c.observed_generation ≡ w.generation
      → is_synced env k (with_condition env w c) ≡ c.status
  unfolding is_synced with_condition
  is_synced-with_condition w c k same e =
      rw (← same) (ground (arith, laws.find-set w.status.conditions c))

  pub is_synced-with_condition_ne :
      (w : Workload) (c : Condition) (k : ConditionType)
      → c.kind ≢ k
      → is_synced env k (with_condition env w c) ≡ is_synced env k w
  unfolding is_synced with_condition
  is_synced-with_condition_ne w c k ne = ground (arith, laws.find-set_ne w.status.conditions c k ne)

  upsert_condition-generation :
      (w : Workload) (failed : Option GoError)
      → (upsert_condition env w failed).observed_generation ≡ w.generation
  unfolding upsert_condition
  upsert_condition-generation w none = refl
  upsert_condition-generation w (some e) = refl

  pub upsert_condition-kind :
      (w : Workload) (failed : Option GoError)
      → (upsert_condition env w failed).kind ≡ ConditionType.convex_synced
  unfolding upsert_condition
  upsert_condition-kind w none = refl
  upsert_condition-kind w (some e) = refl

  pub sync_convex_skip :
      (w : Workload) (t : List Event)
      → is_synced env ConditionType.convex_synced w ≡ true
      → sync_convex env w t ≡ ((w, true), t)
  unfolding sync_convex
  sync_convex_skip w t e = rw (e, sync_convex)

  pub sync_convex_try :
      (w : Workload) (t : List Event)
      → is_synced env ConditionType.convex_synced w ≡ false
      → let told = notify_upserted env w t in
        let c = upsert_condition env w told.0 in
        sync_convex env w t ≡ ((with_condition env w c, c.status), told.1)
  unfolding sync_convex
  sync_convex_try w t e = rw (e, sync_convex)

  pub sync_convex_recorded :
      (w : Workload) (t : List Event)
      → is_synced env ConditionType.convex_synced (sync_convex env w t).0.0
        ≡ (sync_convex env w t).0.1
  sync_convex_recorded w t = elim (Bool-cases (is_synced env ConditionType.convex_synced w)) [
    | inl e ↦ rw (sync_convex_skip w t e) e
    | inr e ↦ rw (sync_convex_try w t e) (
        is_synced-with_condition w _ _ (upsert_condition-kind w _)
          (upsert_condition-generation w _))
  ]

  -- The result of `syncConvex` says whether the Workload is now recorded as synced; where it is,
  -- another call changes nothing and calls nobody.
  pub sync_convex-is_synced :
      (w : Workload) (t : List Event)
      → let r = sync_convex env w t in
        (is_synced env ConditionType.convex_synced r.0.0 ≡ r.0.1)
        × (r.0.1 ≡ true → (t' : List Event) → sync_convex env r.0.0 t' ≡ ((r.0.0, true), t'))
  sync_convex-is_synced w t = (
    sync_convex_recorded w t,
    λ synced t'. sync_convex_skip _ t' (sync_convex_recorded w t ∙ synced),
  )

  pub lifecycle_condition-shape :
      (w : Workload) (phase : LifecyclePhase) (failed : Option GoError)
      → let c = lifecycle_condition env w phase failed in
        (c.kind ≡ ConditionType.convex_lifecycle_synced)
        × (c.observed_generation ≡ w.generation)
        × (c.status ≡ elim failed [ none ↦ true | some e ↦ is_kind ErrorKind.lifecycle_stale e ])
  unfolding lifecycle_condition
  lifecycle_condition-shape w phase none = (refl, refl, refl)
  lifecycle_condition-shape w phase (some e) = (ground arith, ground arith, ground arith)

  pub sync_lifecycle_skip :
      (w : Workload) (phase : LifecyclePhase) (t : List Event)
      → is_synced env ConditionType.convex_lifecycle_synced w ≡ true
      → sync_lifecycle env w phase t ≡ ((w, true), t)
  unfolding sync_lifecycle
  sync_lifecycle_skip w phase t e = rw (e, sync_lifecycle)

  pub sync_lifecycle_try :
      (w : Workload) (phase : LifecyclePhase) (t : List Event)
      → is_synced env ConditionType.convex_lifecycle_synced w ≡ false
      → let told = notify_lifecycle env w phase "" false t in
        let c = lifecycle_condition env w phase told.0 in
        sync_lifecycle env w phase t ≡ ((with_condition env w c, c.status), told.1)
  unfolding sync_lifecycle
  sync_lifecycle_try w phase t e = rw (e, sync_lifecycle)

  pub sync_lifecycle_recorded :
      (w : Workload) (phase : LifecyclePhase) (t : List Event)
      → is_synced env ConditionType.convex_lifecycle_synced (sync_lifecycle env w phase t).0.0
        ≡ (sync_lifecycle env w phase t).0.1
  sync_lifecycle_recorded w phase t =
      elim (Bool-cases (is_synced env ConditionType.convex_lifecycle_synced w)) [
        | inl e ↦ rw (sync_lifecycle_skip w phase t e) e
        | inr e ↦
            let shape = lifecycle_condition-shape w phase _ in
            rw (sync_lifecycle_try w phase t e) (is_synced-with_condition w _ _ shape.0 shape.1)
      ]

  -- A lifecycle report is recorded as delivered when Convex takes it or calls it stale, and on no
  -- other answer; once it is, it is not sent again for the same generation.
  pub sync_lifecycle-is_synced :
      (w : Workload) (phase : LifecyclePhase) (t : List Event)
      → let r = sync_lifecycle env w phase t in
        let answer = (notify_lifecycle env w phase "" false t).0 in
        (is_synced env ConditionType.convex_lifecycle_synced r.0.0 ≡ r.0.1)
        × (is_synced env ConditionType.convex_lifecycle_synced w ≡ false
            → r.0.1 ≡ elim answer [ none ↦ true | some e ↦ is_kind ErrorKind.lifecycle_stale e ])
        × (r.0.1 ≡ true
            → (later : LifecyclePhase) (t' : List Event)
            → sync_lifecycle env r.0.0 later t' ≡ ((r.0.0, true), t'))
  sync_lifecycle-is_synced w phase t = (
    sync_lifecycle_recorded w phase t,
    λ e. rw (sync_lifecycle_try w phase t e) (lifecycle_condition-shape w phase _).2,
    λ synced later t'. sync_lifecycle_skip _ later t' (sync_lifecycle_recorded w phase t ∙ synced),
  )
