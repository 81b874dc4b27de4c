-- ===== src/Assembly/Reconciler.antt =====
-- cmd/main.go: the reconciler with the Runnable as its client of Convex. The requests of the
-- reconciler are computed from its calls.
use ai_cloud_operator.Base.{List, [], ◌∷◌, true}
use ai_cloud_operator.Operator.Registration.{Session}
use ai_cloud_operator.Client.Http
use ai_cloud_operator.Client.Delegations
use ai_cloud_operator.Controller.World.{
  Env, Event, upserted_workload, reported_lifecycle, removed_workload,
}

-- `session` is what the Runnable, which runs beside the reconciler, has at each time.
module _ (http : Http.Env) (session : List Event → Session) (base : Env) where
  unfoldable pub requests : List Event → List Http.Event
  requests [] = []
  requests (upserted_workload info ∷ t) =
      (Delegations.upsert_workload http (session t) info (requests t)).1
  requests (reported_lifecycle name id phase reason retryable ∷ t) =
      (Delegations.report_lifecycle http (session t) name id phase reason retryable (requests t)).1
  requests (removed_workload name namespace ∷ t) =
      (Delegations.remove_workload http (session t) name namespace (requests t)).1
  requests (_ ∷ t) = requests t

  abbrev pub attached : Env
  attached = record base {
    convex_attached = true;
    upsert_workload = λ t info. (Delegations.upsert_workload http (session t) info (requests t)).0;
    report_lifecycle = λ t name id phase reason retryable.
        (Delegations.report_lifecycle http (session t) name id phase reason retryable
          (requests t)).0;
    remove_workload = λ t name namespace.
        (Delegations.remove_workload http (session t) name namespace (requests t)).0;
  }
