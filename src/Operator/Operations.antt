-- ===== src/Operator/Operations.antt =====
-- internal/convexclient/runnable.go: what `processPendingOperations` may do to a workload.
use ai_cloud_operator.Base.{
  String, List, [], ◌∷◌, Option, none, some, Bool, true, false, ◌≡◌, refl, inl, inr, ◌⊎◌, GoError,
  ok, Bool-cases, Option-cases, Result-cases, arith,
}
use ai_cloud_operator.Workload.{Workload}
use ai_cloud_operator.Catalog.Template.{Template}
use ai_cloud_operator.Operator.World.{
  Env, Event, ClaimedOperation, got_workload, updated_workload, deleted_workload, claimed_operation,
}
use ai_cloud_operator.Operator.Provisioning.{checked_config, put, redeploy, set_suspended, destroy}
use ai_cloud_operator.Operator.Claims.{
  report, report_failure, current_template, run_destroy, run_redeploy, run_suspend,
}
use ai_cloud_operator.Operator.ClaimRuns.{IsCurrent, current_template-some}
use ai_cloud_operator.Operator.Storing.{IsStored, checked_config-IsStored}

module _ (env : Env) where
  -- The last call was a claim that Convex granted, for this operation.
  pub record IsGranted (op : ClaimedOperation) (t : List Event) : Type 0 where
    pub token : String
    pub id : String
    pub before : List Event
    pub last : t ≡ claimed_operation token id ∷ before
    pub granted : env.claim_operation before token id ≡ ok (some op)

  -- The written object is the one that was read, but for what the operation changes.
  abbrev pub Follows : ClaimedOperation → Workload → Workload → Type 0
  Follows op found w =
      ((op.operation ≡ "redeploy")
        × ((tmpl : Template) × IsCurrent env op.template_id op.template_version tmpl)
        × ((raw : Option String) × (now : String) × (checked_config env found.spec.template_name
                op.config
              ≡ ok raw)
            × IsStored env op.config raw
            × (w ≡ record found {
              spec = record (found.spec) { config = raw; last_redeployed_at = now };
            })))
      ⊎ (((op.operation ≡ "stop")
            × (w ≡ record found { spec = record (found.spec) { suspended = true } }))
          ⊎ ((op.operation ≡ "resume")
              × (w ≡ record found { spec = record (found.spec) { suspended = false } })))

  pub record IsChange (w : Workload) (t : List Event) : Type 0 where
    pub op : ClaimedOperation
    pub found : Workload
    pub before : List Event
    pub last : t ≡ got_workload op.name ∷ before
    pub read : env.get_workload before op.name ≡ ok found
    pub claim : IsGranted op before
    pub follows : Follows op found w

  abbrev pub IsDue : Event → List Event → Type 0
  IsDue (deleted_workload name) t =
      (op : ClaimedOperation) × IsGranted op t × (op.operation ≡ "destroy") × (op.name ≡ name)
  IsDue (updated_workload w) t = IsChange w t
  IsDue _ t = Unit

  -- Every deletion and every update in the history is due.
  abbrev pub IsDutiful : List Event → Type 0
  IsDutiful [] = Unit
  IsDutiful (e ∷ t) = IsDue e t × IsDutiful t

  report_failure-IsDutiful :
      (token name : String) (failed : Option GoError) (t : List Event)
      → IsDutiful t
      → IsDutiful (report_failure env token name failed t).1
  unfolding report_failure report
  report_failure-IsDutiful token name none t d = d
  report_failure-IsDutiful token name (some e) t d = (tt, d)

  destroy-history :
      (name : String) (t : List Event) → (destroy env name t).1 ≡ deleted_workload name ∷ t
  unfolding destroy
  destroy-history name t = ground arith

  put-history :
      (name : String) (w : Workload) (t : List Event)
      → (put env name w t).1 ≡ updated_workload w ∷ t
  unfolding put
  put-history name w t = ground arith

  module _ (token : String) (op : ClaimedOperation) (t : List Event) (claim : IsGranted op t)
      (d : IsDutiful t) where
    pub run_destroy-IsDutiful : op.operation ≡ "destroy" → IsDutiful (run_destroy env token op t).1
    unfolding run_destroy
    run_destroy-IsDutiful kind = elim (Bool-cases env.has_destroyer) [
      | inr off ↦ let same : (run_destroy env token op t).1 ≡ t = ground arith in rw same d
      | inl on ↦
          let r = destroy env op.name t in
          let same : (run_destroy env token op t).1 ≡ (report_failure env token op.name r.0 r.1).1 =
            ground arith in
          rw same (
            report_failure-IsDutiful token op.name r.0 r.1
              (rw (destroy-history op.name t) ((op, claim, kind, refl), d)))
    ]

    changed :
        (found w : Workload)
        → env.get_workload t op.name ≡ ok found
        → Follows op found w
        → IsDutiful (put env op.name w (got_workload op.name ∷ t)).1
    changed found w read follows = rw (put-history op.name w (got_workload op.name ∷ t)) (
      record {
        op = op;
        found = found;
        before = t;
        last = refl;
        read = read;
        claim = claim;
        follows = follows;
      },
      (tt, d),
    )

    set_suspended-IsDutiful :
        (suspended : Bool)
        → ((found : Workload)
            → Follows op found
                (record found { spec = record (found.spec) { suspended = suspended } }))
        → IsDutiful (set_suspended env op.name suspended t).1
    unfolding set_suspended
    set_suspended-IsDutiful suspended follows = elim (Result-cases (env.get_workload t op.name)) [
      | inr (e, f) ↦
          let same : (set_suspended env op.name suspended t).1 ≡ got_workload op.name ∷ t =
            ground arith in
          rw same (tt, d)
      | inl (found, f) ↦
          let w = record found { spec = record (found.spec) { suspended = suspended } } in
          let same : (set_suspended env op.name suspended t).1
              ≡ (put env op.name w (got_workload op.name ∷ t)).1 =
            ground arith in
          rw same (changed found w f (follows found))
    ]

    pub run_suspend-IsDutiful :
        (suspended : Bool)
        → ((found : Workload)
            → Follows op found
                (record found { spec = record (found.spec) { suspended = suspended } }))
        → IsDutiful (run_suspend env token op suspended t).1
    unfolding run_suspend
    run_suspend-IsDutiful suspended follows = elim (Bool-cases env.has_creator) [
      | inr off ↦
          let same : (run_suspend env token op suspended t).1 ≡ t = ground arith in rw same d
      | inl on ↦
          let r = set_suspended env op.name suspended t in
          let same : (run_suspend env token op suspended t).1
              ≡ (report_failure env token op.name r.0 r.1).1 =
            ground arith in
          rw same (
            report_failure-IsDutiful token op.name r.0 r.1
              (set_suspended-IsDutiful suspended follows))
    ]

    redeploy-IsDutiful :
        (tmpl : Template)
        → op.operation ≡ "redeploy"
        → IsCurrent env op.template_id op.template_version tmpl
        → IsDutiful (redeploy env op.name op.config t).1
    unfolding redeploy
    redeploy-IsDutiful tmpl kind now = elim (Result-cases (env.get_workload t op.name)) [
      | inr (e, f) ↦
          let same : (redeploy env op.name op.config t).1 ≡ got_workload op.name ∷ t =
            ground arith in
          rw same (tt, d)
      | inl (found, f) ↦
          elim (Result-cases (checked_config env found.spec.template_name op.config)) [
            | inr (e, g) ↦
                let same : (redeploy env op.name op.config t).1 ≡ got_workload op.name ∷ t =
                  ground arith in
                rw same (tt, d)
            | inl (raw, g) ↦
                let at = env.now (got_workload op.name ∷ t) in
                let w = record found {
                  spec = record (found.spec) { config = raw; last_redeployed_at = at };
                } in
                let same : (redeploy env op.name op.config t).1
                    ≡ (put env op.name w (got_workload op.name ∷ t)).1 =
                  ground arith in
                rw same (
                  changed found w f (
                    inl (
                      kind,
                      (tmpl, now),
                      (
                        raw,
                        at,
                        g,
                        checked_config-IsStored env found.spec.template_name op.config raw g,
                        refl,
                      ),
                    )))
          ]
    ]

    pub run_redeploy-IsDutiful :
        op.operation ≡ "redeploy" → IsDutiful (run_redeploy env token op t).1
    unfolding run_redeploy report
    run_redeploy-IsDutiful kind = elim (Bool-cases env.has_creator) [
      | inr off ↦ let same : (run_redeploy env token op t).1 ≡ t = ground arith in rw same d
      | inl on ↦ elim (Option-cases (current_template env op.template_id op.template_version)) [
        | inl f ↦ ground arith
        | inr (tmpl, f) ↦
            let r = redeploy env op.name op.config t in
            let same : (run_redeploy env token op t).1
                ≡ (report_failure env token op.name r.0 r.1).1 =
              ground arith in
            rw same (
              report_failure-IsDutiful token op.name r.0 r.1
                (redeploy-IsDutiful tmpl kind (current_template-some env _ _ tmpl f)))
      ]
    ]
