-- ===== src/Operator/Claims.antt =====
-- internal/convexclient/runnable.go: `processClaimable` and `processPendingOperations`.
use ai_cloud_operator.Base.{
  ℕ, String, List, [], ◌∷◌, Option, none, some, Bool, true, false, not, ◌&&◌, ◌||◌, ◌==◌, take,
  GoError, message, ok, err, if◌then◌else◌,
}
use ai_cloud_operator.Base.Effects.{M, return, call, ◌>>=◌, ◌>>◌}
use ai_cloud_operator.Base.Int.{add64}
use ai_cloud_operator.Catalog.Template.{Template, estimated_resources}
use ai_cloud_operator.Catalog.Registry.{get}
use ai_cloud_operator.Capacity.Tracker.{Snapshot, fits}
use ai_cloud_operator.Operator.World.{
  Env, Event, ClaimableWorkload, PendingOperation, ClaimedWorkload, ClaimedOperation,
  claimed_workload, claimed_operation, reported_failed,
}
use ai_cloud_operator.Operator.Provisioning.{create, redeploy, set_suspended, destroy}

abbrev pub max_claims_per_tick : ℕ
max_claims_per_tick = 5

abbrev pub max_pending_operations_per_tick : ℕ
max_pending_operations_per_tick = 5

abbrev pub version_mismatch : String
version_mismatch = "template changed since request; please resubmit"

module _ (env : Env) where
  -- The answer is only logged.
  unfoldable pub report : String → String → String → String → Bool → M Event (Unit {0})
  report token name workload_id reason retryable =
      call (reported_failed token name workload_id reason retryable) (λ t. tt)

  -- The catalog's template, if it has the version that was asked for.
  unfoldable pub current_template : String → String → Option Template
  current_template id version = elim (get env.lib id) [
    | none ↦ none
    | some tmpl ↦ if tmpl.version == version then some tmpl else none
  ]

  -- The local gate: a known template that does not fit is left to others.
  unfoldable pub is_gated : Option Snapshot → ClaimableWorkload → Bool
  is_gated none item = false
  is_gated (some s) item = elim (get env.lib item.template_id) [
    | none ↦ false
    | some tmpl ↦
        let estimate = estimated_resources env.lib tmpl in not (fits s estimate.0 estimate.1)
  ]

  -- What a created workload takes from this tick's headroom.
  unfoldable pub charge : Option Snapshot → Template → Option Snapshot
  charge none tmpl = none
  charge (some s) tmpl =
      let estimate = estimated_resources env.lib tmpl in
      some (record s {
        used_milli_cpu = add64 s.used_milli_cpu estimate.0;
        used_memory_bytes = add64 s.used_memory_bytes estimate.1;
      })

  -- From the claim that Convex granted to the end of the loop's body.
  unfoldable pub create_claimed :
      String → ClaimedWorkload → Option Snapshot → M Event (Option Snapshot)
  create_claimed token c snap = elim (current_template c.template_id c.template_version) [
    | none ↦ do report token "" c.workload_id version_mismatch false; return snap
    | some tmpl ↦ do
      created ← create env c.workload_id c.template_id c.user_id c.subdomain c.config
      elim created [
        | err e ↦ do report token "" c.workload_id (message e) true; return snap
        | ok _ ↦ return (charge snap tmpl)
      ]
  ]

  unfoldable pub claim_one :
      String → ClaimableWorkload → Option Snapshot → M Event (Option Snapshot)
  claim_one token item snap = if is_gated snap item then return snap else do
    claimed ←
        call (claimed_workload token item.workload_id)
          (λ t. env.claim_workload t token item.workload_id)
    elim claimed [
      | err _ ↦ return snap
      | ok none ↦ return snap
      | ok (some c) ↦ create_claimed token c snap
    ]

  unfoldable pub claim_all :
      String → List ClaimableWorkload → Option Snapshot → M Event (Option Snapshot)
  claim_all token [] snap = return snap
  claim_all token (item ∷ items) snap = do
    left ← claim_one token item snap
    claim_all token items left

  unfoldable pub process_claimable :
      String → List ClaimableWorkload → Option Snapshot → M Event (Option Snapshot)
  process_claimable token claimable snap =
      if env.has_creator
      then claim_all token (take max_claims_per_tick claimable) snap
      else return snap

  -- A failed operation is released for another attempt.
  unfoldable pub report_failure : String → String → Option GoError → M Event (Unit {0})
  report_failure token name none = return tt
  report_failure token name (some e) = report token name "" (message e) true

  unfoldable pub run_destroy : String → ClaimedOperation → M Event (Unit {0})
  run_destroy token op =
      if not env.has_destroyer
      then return tt
      else do failed ← destroy env op.name; report_failure token op.name failed

  unfoldable pub run_redeploy : String → ClaimedOperation → M Event (Unit {0})
  run_redeploy token op =
      if not env.has_creator
      then return tt
      else elim (current_template op.template_id op.template_version) [
        | none ↦ report token op.name "" version_mismatch false
        | some _ ↦ do failed ← redeploy env op.name op.config; report_failure token op.name failed
      ]

  unfoldable pub run_suspend : String → ClaimedOperation → Bool → M Event (Unit {0})
  run_suspend token op suspended =
      if not env.has_creator
      then return tt
      else do failed ← set_suspended env op.name suspended; report_failure token op.name failed

  -- The switch over the kind of the operation; an unknown kind is ignored.
  unfoldable pub run_operation : String → ClaimedOperation → M Event (Unit {0})
  run_operation token op =
      if op.operation == "destroy"
      then run_destroy token op
      else if op.operation == "redeploy"
      then run_redeploy token op
      else if op.operation == "stop" || op.operation == "resume"
      then run_suspend token op (op.operation == "stop")
      else return tt

  unfoldable pub operate_one : String → PendingOperation → M Event (Unit {0})
  operate_one token item = do
    claimed ←
        call (claimed_operation token item.workload_id)
          (λ t. env.claim_operation t token item.workload_id)
    elim claimed [ err _ ↦ return tt | ok none ↦ return tt | ok (some op) ↦ run_operation token op ]

  unfoldable pub operate_all : String → List PendingOperation → M Event (Unit {0})
  operate_all token [] = return tt
  operate_all token (item ∷ items) = do operate_one token item; operate_all token items

  unfoldable pub process_pending_operations : String → List PendingOperation → M Event (Unit {0})
  process_pending_operations token pending =
      if not env.has_creator && not env.has_destroyer
      then return tt
      else operate_all token (take max_pending_operations_per_tick pending)
