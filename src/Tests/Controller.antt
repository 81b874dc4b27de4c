-- ===== src/Tests/Controller.antt =====
-- The reconciler at concrete inputs.
use ai_cloud_operator.Base.{
  Bool, String, List, [], ◌∷◌, none, true, false, ok, ◌≡◌, refl, here, arith, eq_iff, get_text,
}
use ai_cloud_operator.Base.Int.{pos}
use ai_cloud_operator.Workload.{Workload, ConditionType-discrete}
use ai_cloud_operator.Controller.World.{
  Env, Event, ConditionLaws, got_workload, got_deployment, updated_status, LifecyclePhase,
  listed_pods, deleted_workload, reported_lifecycle,
}
use ai_cloud_operator.Controller.Render.{desired_replica_count, render, legacy_rendered}
use ai_cloud_operator.Controller.Sync.{
  sync_convex, sync_lifecycle, update_status, is_synced, notify_lifecycle, notify_upserted, settle,
  upsert_condition, lifecycle_condition, with_condition,
}
use ai_cloud_operator.Controller.Reconcile.{
  check_unschedulable, release_claim, is_stuck, stuck_in_pod, stuck_message, capacity_reason, done,
  reconcile_deployment, reconcile_service,
}
use ai_cloud_operator.Controller.Loop.{
  reconcile, reconcile_spec, reconcile_live, apply_objects, observe, finish,
}
use ai_cloud_operator.Controller.Stuck.{IsStuck, Explains}
use ai_cloud_operator.Controller.Releasing.{
  Released, check_unschedulable-Released, check_unschedulable_gives_up,
}
use ai_cloud_operator.Controller.Calm.{Settles, Applied}
use ai_cloud_operator.Controller.Repeating.{FiveCalls, reconcile_again}
use ai_cloud_operator.Controller.Ending.{Quiet, reconcile-Quiet}
use ai_cloud_operator.Controller.Settling.{StatusLaw, update_status-StatusLaw}
use ai_cloud_operator.Tests.Samples.{
  library, workload, deployment, stuck_pod, stuck_condition, env, laws, find_condition,
  set_condition, contains,
}

-- What a run that gives the Workload up has done, newest first.
abbrev released_history : List Event
released_history =
    deleted_workload workload
    ∷ reported_lifecycle "web" "" LifecyclePhase.failed
        "insufficient cluster capacity: 0/3 nodes are available" true
    ∷ listed_pods "tenant" []
    ∷ []

gives_up : check_unschedulable env workload [] [] ≡ (true, released_history)
unfolding check_unschedulable release_claim is_stuck stuck_in_pod stuck_message notify_lifecycle
    desired_replica_count get_text
gives_up = refl

check_unschedulable-Released_example : Released env workload [] [] released_history
check_unschedulable-Released_example =
    check_unschedulable-Released env workload [] [] released_history gives_up

IsStuck-here : IsStuck 3599000000000 stuck_condition
IsStuck-here = record { kind = refl; status = refl; reason = refl; since = ground arith }

explained : Explains 3599000000000 (stuck_pod ∷ [])
explained = (((λ s e. let same = (eq_iff "0/3 nodes are available" "").1 e in cc), tt), tt)

wanted : desired_replica_count workload ≡ pos 1
unfolding desired_replica_count
wanted = refl

told :
    (text : String)
    → (notify_lifecycle env workload LifecyclePhase.failed
        (capacity_reason text)
        true
        (listed_pods "tenant" [] ∷ [])).0
      ≡ none
unfolding notify_lifecycle
told text = refl

check_unschedulable_gives_up_example : (check_unschedulable env workload [] []).0 ≡ true
check_unschedulable_gives_up_example =
    check_unschedulable_gives_up env workload [] [] (stuck_pod ∷ []) refl (rw wanted refl) refl refl
      explained (here (here IsStuck-here)) told (λ t. refl)

-- A Workload with an image, held by the operator's finalizer, whose one replica is ready.
abbrev held : Workload
held = record workload {
  finalizers = "apps.aicloud.dev/workload-finalizer" ∷ [];
  spec = record (workload.spec) { image = "nginx:1.27" };
}

abbrev pub settled_env : Env
settled_env = record env {
  get_workload = λ t namespace name. ok held;
  write_deployment = λ t d. none;
  list_pods = λ t namespace selector. ok [];
}

abbrev settled_history : List Event
settled_history = (reconcile settled_env "tenant" "web" []).1

settles : reconcile settled_env "tenant" "web" [] ≡ (done, settled_history)
unfolding reconcile reconcile_live reconcile_spec apply_objects observe finish reconcile_deployment
    reconcile_service check_unschedulable stuck_message sync_convex sync_lifecycle settle
    update_status is_synced notify_lifecycle notify_upserted upsert_condition lifecycle_condition
    with_condition desired_replica_count render legacy_rendered get_text find_condition
    set_condition contains ConditionType-discrete
settles = refl

reconcile-Quiet_example : Quiet settled_env "tenant" "web" [] settled_history
reconcile-Quiet_example = reconcile-Quiet settled_env "tenant" "web" [] settled_history settles

update_status-StatusLaw_example :
    StatusLaw env laws workload deployment (update_status env workload deployment []).0.0
update_status-StatusLaw_example = update_status-StatusLaw env laws workload deployment []

renders : render library held ≡ ok (legacy_rendered held)
unfolding render
renders = refl

-- The object as the run of `settled_env` has stored it.
abbrev stored : Workload
stored = (update_status settled_env (sync_convex settled_env held []).0.0 deployment []).0.0

-- From now on the API server answers with that object.
abbrev steady_env : Env
steady_env = record settled_env { get_workload = λ t namespace name. ok stored }

steady_laws : ConditionLaws steady_env
steady_laws = record {
  find-set = laws.find-set;
  find-set_ne = laws.find-set_ne;
  set-found = laws.set-found;
}

abbrev first_read : List Event
first_read = got_deployment "tenant" "web" ∷ (sync_convex steady_env held []).1

abbrev first_sent : (Workload × Bool) × List Event
first_sent = update_status steady_env (sync_convex steady_env held []).0.0 deployment first_read

settled_first :
    Settles steady_env "tenant" "web" held deployment stored []
      (updated_status stored ∷ first_sent.1)
unfolding sync_convex sync_lifecycle settle update_status is_synced notify_lifecycle notify_upserted
    upsert_condition lifecycle_condition with_condition desired_replica_count get_text
    find_condition set_condition ConditionType-discrete
settled_first = (refl, refl, refl, refl, refl, refl)

same_status : first_sent.0.0 ≡ stored
unfolding sync_convex sync_lifecycle settle update_status is_synced notify_lifecycle notify_upserted
    upsert_condition lifecycle_condition with_condition desired_replica_count get_text
    find_condition set_condition ConditionType-discrete
same_status = refl

abbrev writes : List Event
writes =
    (reconcile_service steady_env stored (legacy_rendered stored)
      (reconcile_deployment steady_env stored (legacy_rendered stored)
        (got_workload "tenant" "web" ∷ [])).1).1

applied : Applied steady_env stored (got_workload "tenant" "web" ∷ []) writes
unfolding render reconcile_deployment reconcile_service sync_convex update_status with_condition
    settle sync_lifecycle is_synced notify_lifecycle notify_upserted upsert_condition
    lifecycle_condition desired_replica_count find_condition set_condition ConditionType-discrete
applied = (legacy_rendered stored, refl, refl, refl, refl)

stays_live : stored.deleting ≡ false
unfolding sync_convex sync_lifecycle settle update_status is_synced notify_lifecycle notify_upserted
    upsert_condition lifecycle_condition with_condition desired_replica_count find_condition
    set_condition ConditionType-discrete
stays_live = refl

stays_held : contains stored.finalizers "apps.aicloud.dev/workload-finalizer" ≡ true
unfolding sync_convex sync_lifecycle settle update_status is_synced notify_lifecycle notify_upserted
    upsert_condition lifecycle_condition with_condition desired_replica_count find_condition
    set_condition ConditionType-discrete contains
stays_held = refl

reconcile_again_example :
    (after : List Event) × (reconcile steady_env "tenant" "web" [] ≡ (done, after))
    × FiveCalls "tenant" "web" stored [] after
reconcile_again_example =
    reconcile_again steady_env steady_laws "tenant" "web" held stored deployment []
      (updated_status stored ∷ first_sent.1) settled_first same_status [] writes refl stays_live
      stays_held applied refl refl
