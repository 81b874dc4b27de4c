-- ===== src/Gateway/Proxy.antt =====
-- internal/gateway/proxy.go: `ServiceProxy.Handler`.
use ai_cloud_operator.Base.{
  ℕ, String, List, [], ◌∷◌, Option, none, some, ◌==◌, concat, GoError, ErrorKind, is_kind, Result,
  ok, err, if◌then◌else◌,
}
use ai_cloud_operator.Base.Effects.{M, return, call, ◌>>=◌}
use ai_cloud_operator.Base.Int.{ℤ}
use ai_cloud_operator.Kube.{ServicePort}
use ai_cloud_operator.Workload.{Workload, Phase, Condition, ConditionType}
use ai_cloud_operator.Gateway.Page.{
  PageData, Upstream, Reply, error, forward, render_loading_page, render_failed_page,
  render_stopped_page, render_not_found_page,
}

pub data Event : Type 0 where
  got_workload got_service : (namespace name : String) → Event

-- Of a Service only the ports are read.
pub record Env : Type 0 where
  pub namespace : String
  pub get_workload : List Event → String → String → Result Workload
  pub get_service : List Event → String → String → Result (List ServicePort)
  pub find_condition : List Condition → ConditionType → Option Condition
  pub execute : PageData → Option GoError
  -- `%d`.
  pub show_int : ℤ → String

-- The path's values and the query of a request.
pub record Request : Type 0 where
  pub name : String
  pub entrypoint : String
  pub subpath : String
  pub query : List (String × String)

abbrev pub gateway_page_refresh_seconds : ℕ
gateway_page_refresh_seconds = 3

-- `q.Del("token")`.
unfoldable pub without_token : List (String × String) → List (String × String)
without_token [] = []
without_token (entry ∷ rest) =
    let others = without_token rest in if entry.0 == "token" then others else entry ∷ others

-- The loop over the ports: the first of that name.
unfoldable pub find_port : String → List ServicePort → Option ℤ
find_port entrypoint [] = none
find_port entrypoint (p ∷ ps) =
    let rest = find_port entrypoint ps in if p.name == entrypoint then some p.port else rest

module _ (env : Env) where
  unfoldable pub upstream : Request → ℤ → Upstream
  upstream req port = record {
    path = concat (
        "/api/v1/namespaces/"
        ∷ env.namespace
        ∷ "/services/"
        ∷ req.name
        ∷ ":"
        ∷ env.show_int port
        ∷ "/proxy/"
        ∷ req.subpath
        ∷ []);
    query = without_token req.query;
  }

  -- From the list of the Service's ports.
  unfoldable pub route : Request → List ServicePort → Reply
  route req [] = error 502 "workload service exposes no ports"
  route req (p ∷ ps) = elim (find_port req.entrypoint (p ∷ ps)) [
    | none ↦ error 404 "unknown entrypoint"
    | some port ↦ forward (upstream req port)
  ]

  unfoldable pub relay : Request → M Event Reply
  relay req = do
    got ← call (got_service env.namespace req.name) (λ t. env.get_service t env.namespace req.name)
    elim got [
      | err e ↦ return (
          if is_kind ErrorKind.not_found e
          then error 404 "workload service not found"
          else error 502 "failed to resolve workload service")
      | ok ports ↦ return (route req ports)
    ]

  -- The message of the Ready condition, or none.
  unfoldable pub failure_message : Workload → String
  failure_message w = elim (env.find_condition w.status.conditions ConditionType.ready) [
    | none ↦ ""
    | some c ↦ c.message
  ]

  -- The switch over the phase.
  unfoldable pub by_phase : Request → Workload → Phase → M Event Reply
  by_phase req w Phase.failed =
      return
        (render_failed_page env.execute req.name (failure_message w) gateway_page_refresh_seconds)
  by_phase req w Phase.stopped = return (render_stopped_page env.execute req.name)
  by_phase req w Phase.running = relay req
  by_phase req w _ = return (render_loading_page env.execute req.name gateway_page_refresh_seconds)

  unfoldable pub handler : Request → M Event Reply
  handler req = do
    got ←
        call (got_workload env.namespace req.name) (λ t. env.get_workload t env.namespace req.name)
    elim got [
      | err e ↦ return (
          if is_kind ErrorKind.not_found e
          then render_not_found_page env.execute req.name
          else error 502 "failed to resolve workload")
      | ok w ↦ by_phase req w w.status.phase
    ]
