-- ===== src/Operator/PendingTicks.antt =====
-- internal/convexclient/runnable.go: what holds of a whole tick of `processPendingOperations`.
use ai_cloud_operator.Base.{
  String, List, [], ◌∷◌, none, some, true, false, not, ◌&&◌, ◌==◌, take, eq_iff, ◌≡◌, refl, inl,
  inr, ◌⊎◌, Bool-cases, Result-cases, arith,
}
use ai_cloud_operator.Operator.World.{
  Env, Event, ClaimedOperation, PendingOperation, claimed_operation,
}
use ai_cloud_operator.Operator.Claims.{
  max_pending_operations_per_tick, run_destroy, run_redeploy, run_suspend, run_operation,
  operate_one, operate_all, process_pending_operations,
}
use ai_cloud_operator.Operator.Operations.{
  IsGranted, IsDutiful, run_destroy-IsDutiful, run_suspend-IsDutiful, run_redeploy-IsDutiful,
}

module _ (env : Env) where
  -- The switch, by the kind of the operation.
  pub run_operation-branches :
      (token : String) (op : ClaimedOperation) (t : List Event)
      → ((op.operation ≡ "destroy") × (run_operation env token op t ≡ run_destroy env token op t))
        ⊎ (((op.operation ≡ "redeploy")
              × (run_operation env token op t ≡ run_redeploy env token op t))
            ⊎ (((op.operation ≡ "stop")
                  × (run_operation env token op t ≡ run_suspend env token op true t))
                ⊎ (((op.operation ≡ "resume")
                      × (run_operation env token op t ≡ run_suspend env token op false t))
                    ⊎ (run_operation env token op t ≡ (tt, t)))))
  unfolding run_operation
  run_operation-branches token op t = elim (Bool-cases (op.operation == "destroy")) [
    | inl a ↦ inl ((eq_iff op.operation "destroy").0 a, ground arith)
    | inr a ↦ elim (Bool-cases (op.operation == "redeploy")) [
      | inl b ↦ inr (inl ((eq_iff op.operation "redeploy").0 b, ground arith))
      | inr b ↦ elim (Bool-cases (op.operation == "stop")) [
        | inl c ↦ inr (inr (inl ((eq_iff op.operation "stop").0 c, ground arith)))
        | inr c ↦ elim (Bool-cases (op.operation == "resume")) [
          | inl e ↦ inr (inr (inr (inl ((eq_iff op.operation "resume").0 e, ground arith))))
          | inr e ↦ inr (inr (inr (inr (ground arith))))
        ]
      ]
    ]
  ]

  run_operation-IsDutiful :
      (token : String) (op : ClaimedOperation) (t : List Event)
      → IsGranted env op t
      → IsDutiful env t
      → IsDutiful env (run_operation env token op t).1
  run_operation-IsDutiful token op t claim d = elim (run_operation-branches token op t) [
    | inl (kind, same) ↦ rw same (run_destroy-IsDutiful env token op t claim d kind)
    | inr (inl (kind, same)) ↦ rw same (run_redeploy-IsDutiful env token op t claim d kind)
    | inr (inr (inl (kind, same))) ↦
        rw same
          (run_suspend-IsDutiful env token op t claim d true (λ found. inr (inl (kind, refl))))
    | inr (inr (inr (inl (kind, same)))) ↦
        rw same
          (run_suspend-IsDutiful env token op t claim d false (λ found. inr (inr (kind, refl))))
    | inr (inr (inr (inr same))) ↦ rw same d
  ]

  operate_one-IsDutiful :
      (token : String) (item : PendingOperation) (t : List Event)
      → IsDutiful env t
      → IsDutiful env (operate_one env token item t).1
  unfolding operate_one
  operate_one-IsDutiful token item t d =
      elim (Result-cases (env.claim_operation t token item.workload_id)) [
        | inr (e, f) ↦
            let same : (operate_one env token item t).1
                ≡ claimed_operation token item.workload_id ∷ t =
              ground arith in
            rw same (tt, d)
        | inl (none, f) ↦
            let same : (operate_one env token item t).1
                ≡ claimed_operation token item.workload_id ∷ t =
              ground arith in
            rw same (tt, d)
        | inl (some op, f) ↦
            let s = claimed_operation token item.workload_id ∷ t in
            let same : (operate_one env token item t).1 ≡ (run_operation env token op s).1 =
              ground arith in
            rw same (
              run_operation-IsDutiful token op s
                (record {
                  token = token;
                  id = item.workload_id;
                  before = t;
                  last = refl;
                  granted = f;
                })
                (tt, d))
      ]

  operate_all-IsDutiful :
      (token : String) (items : List PendingOperation) (t : List Event)
      → IsDutiful env t
      → IsDutiful env (operate_all env token items t).1
  unfolding operate_all
  operate_all-IsDutiful token [] t d = d
  operate_all-IsDutiful token (item ∷ items) t d =
      operate_all-IsDutiful token items _ (operate_one-IsDutiful token item t d)

  -- In a tick every deletion and every update of a resource comes right after a claim that Convex
  -- granted for that resource: a deletion after a claim to destroy; an update after a claim to
  -- redeploy (of a template at its present version, with a config that was checked), to stop or
  -- to resume, and then of the object just read, with only the fields of that operation changed.
  pub process_pending_operations-IsDutiful :
      (token : String) (pending : List PendingOperation) (t : List Event)
      → IsDutiful env t
      → IsDutiful env (process_pending_operations env token pending t).1
  unfolding process_pending_operations
  process_pending_operations-IsDutiful token pending t d =
      elim (Bool-cases (not env.has_creator && not env.has_destroyer)) [
        | inl off ↦
            let same : process_pending_operations env token pending t ≡ (tt, t) = ground arith in
            rw same d
        | inr on ↦
            let items = take max_pending_operations_per_tick pending in
            let same : process_pending_operations env token pending t
                ≡ operate_all env token items t =
              ground arith in
            rw same (operate_all-IsDutiful token items t d)
      ]
