-- ===== src/Operator/Upkeep.antt =====
-- internal/convexclient/runnable.go: which kinds of calls the pending operations make.
use ai_cloud_operator.Base.{
  String, List, [], ◌∷◌, Option, none, some, Bool, true, false, not, ◌&&◌, take, ◌≡◌, refl, inl,
  inr, GoError, Bool-cases, Option-cases, Result-cases, arith,
}
use ai_cloud_operator.Workload.{Workload}
use ai_cloud_operator.Catalog.Types.{Params}
use ai_cloud_operator.Operator.World.{
  Env, Event, ClaimedOperation, PendingOperation, got_workload, updated_workload, deleted_workload,
}
use ai_cloud_operator.Operator.Provisioning.{checked_config, put, redeploy, set_suspended, destroy}
use ai_cloud_operator.Operator.Claims.{
  max_pending_operations_per_tick, version_mismatch, report, report_failure, current_template,
  run_destroy, run_redeploy, run_suspend, run_operation, operate_one, operate_all,
  process_pending_operations,
}
use ai_cloud_operator.Operator.PendingTicks.{run_operation-branches}
use ai_cloud_operator.Operator.Extents.{Extends, same, more, Extends-trans, IsUpkeep}

module _ (env : Env) where
  put-Extends :
      (name : String) (w : Workload) (t : List Event) → Extends IsUpkeep t (put env name w t).1
  unfolding put
  put-Extends name w t =
      let e : (put env name w t).1 ≡ updated_workload w ∷ t = ground arith in
      rw e (more tt (same refl))

  report-Extends :
      (token name reason : String) (retryable : Bool) (t : List Event)
      → Extends IsUpkeep t (report env token name "" reason retryable t).1
  unfolding report
  report-Extends token name reason retryable t = more tt (same refl)

  report_failure-Extends :
      (token name : String) (e : Option GoError) (t : List Event)
      → Extends IsUpkeep t (report_failure env token name e t).1
  unfolding report_failure report
  report_failure-Extends token name none t = same refl
  report_failure-Extends token name (some e) t = more tt (same refl)

  set_suspended-Extends :
      (name : String) (suspended : Bool) (t : List Event)
      → Extends IsUpkeep t (set_suspended env name suspended t).1
  unfolding set_suspended
  set_suspended-Extends name suspended t = elim (Result-cases (env.get_workload t name)) [
    | inr (e, f) ↦ rw (set_suspended, f) (more tt (same refl))
    | inl (w, f) ↦
        rw (set_suspended, f)
          (Extends-trans (more tt (same refl)) (put-Extends name _ (got_workload name ∷ t)))
  ]

  redeploy-Extends :
      (name : String) (config : Option Params) (t : List Event)
      → Extends IsUpkeep t (redeploy env name config t).1
  unfolding redeploy
  redeploy-Extends name config t = elim (Result-cases (env.get_workload t name)) [
    | inr (e, f) ↦ rw (redeploy, f) (more tt (same refl))
    | inl (w, f) ↦ elim (Result-cases (checked_config env w.spec.template_name config)) [
      | inr (e, g) ↦ rw (redeploy, f, g) (more tt (same refl))
      | inl (raw, g) ↦
          rw (redeploy, f, g)
            (Extends-trans (more tt (same refl)) (put-Extends name _ (got_workload name ∷ t)))
    ]
  ]

  destroy-Extends : (name : String) (t : List Event) → Extends IsUpkeep t (destroy env name t).1
  unfolding destroy
  destroy-Extends name t =
      let e : (destroy env name t).1 ≡ deleted_workload name ∷ t = ground arith in
      rw e (more tt (same refl))

  run_destroy-Extends :
      (token : String) (op : ClaimedOperation) (t : List Event)
      → Extends IsUpkeep t (run_destroy env token op t).1
  unfolding run_destroy
  run_destroy-Extends token op t = elim (Bool-cases env.has_destroyer) [
    | inr off ↦ let e : (run_destroy env token op t).1 ≡ t = ground arith in same e
    | inl on ↦
        let r = destroy env op.name t in
        let e : (run_destroy env token op t).1 ≡ (report_failure env token op.name r.0 r.1).1 =
          ground arith in
        rw e
          (Extends-trans (destroy-Extends op.name t) (report_failure-Extends token op.name r.0 r.1))
  ]

  run_redeploy-Extends :
      (token : String) (op : ClaimedOperation) (t : List Event)
      → Extends IsUpkeep t (run_redeploy env token op t).1
  unfolding run_redeploy
  run_redeploy-Extends token op t = elim (Bool-cases env.has_creator) [
    | inr off ↦ let e : (run_redeploy env token op t).1 ≡ t = ground arith in same e
    | inl on ↦ elim (Option-cases (current_template env op.template_id op.template_version)) [
      | inl f ↦
          let e : (run_redeploy env token op t).1
              ≡ (report env token op.name "" version_mismatch false t).1 =
            ground arith in
          rw e (report-Extends token op.name version_mismatch false t)
      | inr (tmpl, f) ↦
          let r = redeploy env op.name op.config t in
          let e : (run_redeploy env token op t).1 ≡ (report_failure env token op.name r.0 r.1).1 =
            ground arith in
          rw e (
            Extends-trans (redeploy-Extends op.name op.config t)
              (report_failure-Extends token op.name r.0 r.1))
    ]
  ]

  run_suspend-Extends :
      (token : String) (op : ClaimedOperation) (suspended : Bool) (t : List Event)
      → Extends IsUpkeep t (run_suspend env token op suspended t).1
  unfolding run_suspend
  run_suspend-Extends token op suspended t = elim (Bool-cases env.has_creator) [
    | inr off ↦ let e : (run_suspend env token op suspended t).1 ≡ t = ground arith in same e
    | inl on ↦
        let r = set_suspended env op.name suspended t in
        let e : (run_suspend env token op suspended t).1
            ≡ (report_failure env token op.name r.0 r.1).1 =
          ground arith in
        rw e (
          Extends-trans (set_suspended-Extends op.name suspended t)
            (report_failure-Extends token op.name r.0 r.1))
  ]

  run_operation-Extends :
      (token : String) (op : ClaimedOperation) (t : List Event)
      → Extends IsUpkeep t (run_operation env token op t).1
  run_operation-Extends token op t = elim (run_operation-branches env token op t) [
    | inl (kind, e) ↦ rw e (run_destroy-Extends token op t)
    | inr (inl (kind, e)) ↦ rw e (run_redeploy-Extends token op t)
    | inr (inr (inl (kind, e))) ↦ rw e (run_suspend-Extends token op true t)
    | inr (inr (inr (inl (kind, e)))) ↦ rw e (run_suspend-Extends token op false t)
    | inr (inr (inr (inr e))) ↦ rw e (same refl)
  ]

  operate_one-Extends :
      (token : String) (item : PendingOperation) (t : List Event)
      → Extends IsUpkeep t (operate_one env token item t).1
  unfolding operate_one
  operate_one-Extends token item t =
      elim (Result-cases (env.claim_operation t token item.workload_id)) [
        | inr (e, f) ↦ rw (operate_one, f) (more tt (same refl))
        | inl (none, f) ↦ rw (operate_one, f) (more tt (same refl))
        | inl (some op, f) ↦
            rw (operate_one, f)
              (Extends-trans (more tt (same refl)) (run_operation-Extends token op _))
      ]

  operate_all-Extends :
      (token : String) (items : List PendingOperation) (t : List Event)
      → Extends IsUpkeep t (operate_all env token items t).1
  unfolding operate_all
  operate_all-Extends token [] t = same refl
  operate_all-Extends token (item ∷ items) t =
      Extends-trans (operate_one-Extends token item t) (operate_all-Extends token items _)

  pub process_pending_operations-Extends :
      (token : String) (pending : List PendingOperation) (t : List Event)
      → Extends IsUpkeep t (process_pending_operations env token pending t).1
  unfolding process_pending_operations
  process_pending_operations-Extends token pending t =
      elim (Bool-cases (not env.has_creator && not env.has_destroyer)) [
        | inl off ↦
            let e : (process_pending_operations env token pending t).1 ≡ t = ground arith in same e
        | inr on ↦
            let items = take max_pending_operations_per_tick pending in
            let e : process_pending_operations env token pending t ≡ operate_all env token items t =
              ground arith in
            rw e (operate_all-Extends token items t)
      ]
