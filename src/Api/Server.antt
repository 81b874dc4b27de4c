-- ===== src/Api/Server.antt =====
-- internal/api/server.go: the routes, each behind its guard.
use ai_cloud_operator.Base.{String, Option}
use ai_cloud_operator.Base.Effects.{M}
use ai_cloud_operator.Base.Int.{ℤ}
use ai_cloud_operator.Gateway.Proxy.{Request, handler}
use ai_cloud_operator.Api.World
use ai_cloud_operator.Api.Guards.{require_deploy_token, require_gateway_token}
use ai_cloud_operator.Api.Handlers.{
  handle_healthz, handle_deploy, handle_get, handle_delete, handle_run_function,
}

-- The requests that a pattern of the mux takes. The texts of the first four are the Authorization
-- header, then the path's values, then the body.
pub data Call : Type 0 where
  healthz : Call
  deploy : (authorization body : String) → Call
  read remove : (authorization name : String) → Call
  run : (authorization name key body : String) → Call
  gateway : Request → (cookie : Option String) → Call

module _ (env : World.Env) where
  unfoldable pub proxied_handler : Request → M World.Event World.Response
  proxied_handler req t =
      let r = World.within World.proxied (λ s. handler (env.proxy s) req) t in
      (World.reply r.0, r.1)

module _ (env : World.Env) (unix : ℤ → ℤ) where
  unfoldable pub serve : Call → M World.Event World.Response
  serve healthz = handle_healthz env
  serve (deploy authorization body) =
      require_deploy_token env authorization (handle_deploy env body)
  serve (read authorization name) = require_deploy_token env authorization (handle_get env name)
  serve (remove authorization name) =
      require_deploy_token env authorization (handle_delete env name)
  serve (run authorization name key body) =
      require_deploy_token env authorization (handle_run_function env name key body)
  serve (gateway req cookie) =
      require_gateway_token env unix req.name req.query cookie (proxied_handler env req)
