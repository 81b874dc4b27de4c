-- ===== src/Tests/Knowing.antt =====
-- The reconciler with the Runnable as its client of Convex, at a concrete input.
use ai_cloud_operator.Base.{List, [], ◌≡◌, refl, arith, get_text}
use ai_cloud_operator.Workload.{ConditionType-discrete}
use ai_cloud_operator.Operator.Registration.{Session}
use ai_cloud_operator.Client.Http
use ai_cloud_operator.Client.Calls
use ai_cloud_operator.Client.Delegations
use ai_cloud_operator.Client.Reports.{Foreign}
use ai_cloud_operator.Controller.World.{Env, Event, ConditionLaws}
use ai_cloud_operator.Controller.Render.{desired_replica_count, render, legacy_rendered}
use ai_cloud_operator.Controller.Sync.{
  sync_convex, sync_lifecycle, update_status, is_synced, notify_lifecycle, notify_upserted, settle,
  upsert_condition, lifecycle_condition, with_condition,
}
use ai_cloud_operator.Controller.Reconcile.{
  check_unschedulable, stuck_message, done, reconcile_deployment, reconcile_service,
}
use ai_cloud_operator.Controller.Loop.{
  reconcile, reconcile_spec, reconcile_live, apply_objects, observe, finish,
}
use ai_cloud_operator.Assembly.Reconciler.{requests, attached}
use ai_cloud_operator.Assembly.Knowing.{StoresStatus, Known, reconcile-Known}
use ai_cloud_operator.Tests.Samples.{laws, find_condition, set_condition, contains}
use ai_cloud_operator.Tests.Controller.{settled_env}
use ai_cloud_operator.Tests.Assembly.{http, session}

abbrev running : List Event → Session
running t = session

abbrev informing_env : Env
informing_env = attached http running settled_env

informing_laws : ConditionLaws informing_env
informing_laws = record {
  find-set = laws.find-set;
  find-set_ne = laws.find-set_ne;
  set-found = laws.set-found;
}

foreign : Foreign http
foreign = record {
  encoding = λ body e f. absurd (ground arith);
  building = λ url e f. absurd (ground arith);
  sending = λ t q e f. absurd (ground arith);
}

stores : StoresStatus http running settled_env
stores t sent stored e = ground arith

abbrev informed_history : List Event
informed_history = (reconcile informing_env "tenant" "web" []).1

informs : reconcile informing_env "tenant" "web" [] ≡ (done, informed_history)
unfolding reconcile reconcile_live reconcile_spec apply_objects observe finish reconcile_deployment
    reconcile_service check_unschedulable stuck_message sync_convex sync_lifecycle settle
    update_status is_synced notify_lifecycle notify_upserted upsert_condition lifecycle_condition
    with_condition desired_replica_count render legacy_rendered get_text find_condition
    set_condition contains ConditionType-discrete requests Delegations.upsert_workload
    Delegations.report_lifecycle Calls.upsert_workload Calls.report_lifecycle Calls.accepted
    Calls.read_lifecycle Http.post
informs = refl

reconcile-Known_example : Known http running settled_env "tenant" "web" [] informed_history
reconcile-Known_example =
    reconcile-Known http running settled_env informing_laws foreign stores "tenant" "web" []
      informed_history informs
