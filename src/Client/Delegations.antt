-- ===== src/Client/Delegations.antt =====
-- internal/convexclient/runnable.go: the methods that present the current token.
use ai_cloud_operator.Base.{String, List, Option, Bool, GoError, Result}
use ai_cloud_operator.Base.Effects.{M}
use ai_cloud_operator.Operator.Registration.{Session}
use ai_cloud_operator.Controller.World.{LifecyclePhase, WorkloadInfo}
use ai_cloud_operator.Metrics.Samples.{Sample}
use ai_cloud_operator.Client.Http.{Event, Env}
use ai_cloud_operator.Client.Calls

module _ (env : Env) (session : Session) where
  unfoldable pub current_deploy_token : String
  current_deploy_token = session.tokens.deploy_token

  unfoldable pub upsert_workload : WorkloadInfo → M Event (Option GoError)
  upsert_workload info = Calls.upsert_workload env session.tokens.heartbeat_token info

  unfoldable pub remove_workload : String → String → M Event (Option GoError)
  remove_workload name namespace =
      Calls.remove_workload env session.tokens.heartbeat_token name namespace

  unfoldable pub report_lifecycle :
      String → String → LifecyclePhase → String → Bool → M Event (Option GoError)
  report_lifecycle name workload_id phase reason retryable =
      Calls.report_lifecycle env session.tokens.heartbeat_token name workload_id phase reason
        retryable

  unfoldable pub report_metrics : List Sample → M Event (Option GoError)
  report_metrics samples = Calls.report_metrics env session.tokens.heartbeat_token samples

  unfoldable pub verify_gateway_token : String → String → String → M Event (Result String)
  verify_gateway_token token namespace name =
      Calls.verify_gateway_token env session.tokens.heartbeat_token token namespace name
