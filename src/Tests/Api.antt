-- ===== src/Tests/Api.antt =====
-- The HTTP API at concrete inputs.
use ai_cloud_operator.Base.{
  [], ◌∷◌, none, some, GoError, leaf, ErrorKind, ok, err, get_text, lookup, ◌≡◌, refl, ◌↔◌,
}
use ai_cloud_operator.Base.Int.{ℤ, pos}
use ai_cloud_operator.Gateway.Token.{sign}
use ai_cloud_operator.Gateway.Page.{forward}
use ai_cloud_operator.Gateway.Proxy.{Request, upstream, without_token}
use ai_cloud_operator.Gateway.Routing.{Relayed}
use ai_cloud_operator.Api.World
use ai_cloud_operator.Api.Guards.{require_gateway_token, exchange, new_session}
use ai_cloud_operator.Api.Handlers.{handle_deploy, handle_get, write_of}
use ai_cloud_operator.Api.Server.{Call, serve}
use ai_cloud_operator.Api.Access.{IsAuthorized, Refused, read, serve-deploy_token}
use ai_cloud_operator.Api.Codes.{IsConsistent}
use ai_cloud_operator.Api.Answers.{serve-IsConsistent}
use ai_cloud_operator.Api.Deploying.{Deployed}
use ai_cloud_operator.Api.Accepting.{handle_deploy-accepts_iff}
use ai_cloud_operator.Api.Sessions.{HasSession, serve-forwards_iff}
use ai_cloud_operator.Api.Redirects.{Promised, serve-redirects}
use ai_cloud_operator.Tests.Samples.{library, workload}
use ai_cloud_operator.Tests.Tokens.{crypto, crypto-CryptoLaws, cookie, escape, write, is_zero}
use ai_cloud_operator.Tests.Gateway
use ai_cloud_operator.Tests.Operator

abbrev absent : GoError
absent = leaf ErrorKind.not_found "not found"

abbrev deployment : World.DeployRequest
deployment = record {
  name = "web";
  template_name = "";
  image = "nginx";
  replicas = none;
  container_port = pos 80;
  env = [];
  subdomain = "";
  user_id = "u1";
  config = none;
}

abbrev env : World.Env
env = record {
  lib = library;
  crypto = crypto;
  namespace = "tenant";
  gateway_secret = "key";
  token = λ t. "secret";
  now = λ t. pos 7;
  now_text = λ t. "2026-01-01T00:00:00Z";
  decode_deploy = λ body. ok deployment;
  decode_run = λ body. ok none;
  label_faults = λ name. none;
  get_workload = λ t name. err absent;
  list_pods = λ t name. ok [];
  executor = λ t namespace pod container command. ("", none);
  apply_workload = λ t write. ok workload;
  verify_gateway_token = λ t token name. ok "u1";
  provisioning = λ t. Operator.env;
  proxy = λ t. Gateway.env;
}

abbrev unix : ℤ → ℤ
unix n = pos 0

serve-deploy_token_example :
    (IsAuthorized env [] "Bearer secret"
      → serve env unix (Call.read "Bearer secret" "web") [] ≡ handle_get env "web" [])
    × (¬ IsAuthorized env [] "Bearer secret"
        → (r : World.Response) × Refused env r
          × (serve env unix (Call.read "Bearer secret" "web") [] ≡ (r, [])))
serve-deploy_token_example =
    serve-deploy_token env unix [] (Call.read "Bearer secret" "web") "Bearer secret"
      (handle_get env "web") (read "Bearer secret" "web")

serve-IsConsistent_example :
    IsConsistent (serve env unix (Call.run "Bearer secret" "web" "backup_state" "{}") []).0
serve-IsConsistent_example =
    serve-IsConsistent env unix (Call.run "Bearer secret" "web" "backup_state" "{}") []

handle_deploy-accepts_iff_example :
    (handle_deploy env "{}" []
      ≡ (World.workload 202 workload, World.applied_workload (write_of env deployment none) ∷ []))
    ↔ ((req : World.DeployRequest) × (env.decode_deploy "{}" ≡ ok req)
        × Deployed env [] req workload (World.applied_workload (write_of env deployment none) ∷ []))
handle_deploy-accepts_iff_example =
    handle_deploy-accepts_iff env "{}" [] workload
      (World.applied_workload (write_of env deployment none) ∷ [])

serve-forwards_iff_example :
    ((serve env unix (Call.gateway Gateway.request (some cookie)) []).0
      ≡ World.reply (forward (upstream Gateway.env Gateway.request (pos 80))))
    ↔ (HasSession env unix [] Gateway.request (some cookie)
        × Relayed Gateway.env Gateway.request [] (upstream Gateway.env Gateway.request (pos 80)))
serve-forwards_iff_example =
    serve-forwards_iff env unix [] Gateway.request (some cookie)
      (upstream Gateway.env Gateway.request (pos 80))

abbrev entering : Request
entering = record (Gateway.request) { query = ("token", "once") ∷ [] }

abbrev session : World.Cookie
session = record { value = cookie; path = "/gw/web" }

entered : (serve env unix (Call.gateway entering none) []).0 ≡ World.redirect session []
unfolding serve require_gateway_token exchange new_session get_text lookup without_token sign escape
    write is_zero
entered = refl

serve-redirects_example : Promised env unix [] entering session []
serve-redirects_example =
    serve-redirects env unix crypto-CryptoLaws [] entering none session [] entered
