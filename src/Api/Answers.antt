-- ===== src/Api/Answers.antt =====
-- internal/api: the status of every answer of the server.
use ai_cloud_operator.Base.{
  String, List, ◌∷◌, Option, none, some, ◌==◌, get_text, Bool-cases, Result-cases, refl, sym, subst,
  inl, inr,
}
use ai_cloud_operator.Base.Effects.{M}
use ai_cloud_operator.Base.Int.{ℤ}
use ai_cloud_operator.Gateway.Token.{sign, verify}
use ai_cloud_operator.Gateway.Proxy.{Request}
use ai_cloud_operator.Api.World
use ai_cloud_operator.Api.Guards
use ai_cloud_operator.Api.Handlers
use ai_cloud_operator.Api.Access.{
  Refused, missing, invalid, require_deploy_token-cases, IsAuthorized-passes,
}
use ai_cloud_operator.Api.Server.{Call, serve, proxied_handler}
use ai_cloud_operator.Api.Codes.{
  IsConsistent, handle_run_function-IsConsistent, handle_deploy-IsConsistent,
  handle_get-IsConsistent, handle_delete-IsConsistent,
}

module _ (env : World.Env) where
  Refused-IsConsistent : (r : World.Response) → Refused env r → IsConsistent r
  Refused-IsConsistent _ (missing message) = refl
  Refused-IsConsistent _ (invalid message) = refl

  guarded-IsConsistent :
      (authorization : String) (next : M World.Event World.Response)
      → ((t : List World.Event) → IsConsistent (next t).0)
      → (t : List World.Event)
      → IsConsistent (Guards.require_deploy_token env authorization next t).0
  guarded-IsConsistent authorization next fine t =
      elim (require_deploy_token-cases env t authorization next) [
        | inl a ↦
            subst (λ r. IsConsistent r.0) (sym (IsAuthorized-passes env t authorization next a))
              (fine t)
        | inr (r, refused, e) ↦
            subst (λ x. IsConsistent x.0) (sym e) (Refused-IsConsistent r refused)
      ]

  proxied_handler-IsConsistent :
      (req : Request) (t : List World.Event) → IsConsistent (proxied_handler env req t).0
  unfolding proxied_handler
  proxied_handler-IsConsistent req t = tt

module _ (env : World.Env) (unix : ℤ → ℤ) where
  unauthenticated-IsConsistent :
      (name : String) (t : List World.Event) → IsConsistent (Guards.unauthenticated env name t).0
  unauthenticated-IsConsistent name t = tt

  new_session-IsConsistent :
      (name : String) (query : List (String × String)) (user_id : String) (t : List World.Event)
      → IsConsistent (Guards.new_session env unix name query user_id t).0
  unfolding Guards.new_session
  new_session-IsConsistent name query user_id t =
      elim (Result-cases (
        sign env.crypto env.gateway_secret (Guards.session_of env unix name user_id (env.now t)))) [
          | inl (signed, f) ↦ rw (Guards.new_session, f) tt
          | inr (e, f) ↦ rw (Guards.new_session, f) refl
        ]

  by_cookie-IsConsistent :
      (name : String) (cookie : Option String) (next : M World.Event World.Response)
      → ((t : List World.Event) → IsConsistent (next t).0)
      → (t : List World.Event) → IsConsistent (Guards.by_cookie env name cookie next t).0
  unfolding Guards.by_cookie
  by_cookie-IsConsistent name none next fine t = tt
  by_cookie-IsConsistent name (some value) next fine t =
      elim (Result-cases
        (verify env.crypto env.gateway_secret env.namespace name (env.now t) value)) [
          | inl (p, f) ↦ rw (Guards.by_cookie, f) (fine t)
          | inr (e, f) ↦ rw (Guards.by_cookie, f) tt
        ]

  exchange-IsConsistent :
      (name : String) (query : List (String × String)) (token : String) (t : List World.Event)
      → IsConsistent (Guards.exchange env unix name query token t).0
  unfolding Guards.exchange
  exchange-IsConsistent name query token t =
      elim (Result-cases (env.verify_gateway_token t token name)) [
        | inl (user_id, f) ↦
            rw (Guards.exchange, f)
              (new_session-IsConsistent name query user_id (World.verified_token token name ∷ t))
        | inr (e, f) ↦ rw (Guards.exchange, f) tt
      ]

  gateway-IsConsistent :
      (name : String) (query : List (String × String)) (cookie : Option String)
      (next : M World.Event World.Response)
      → ((t : List World.Event) → IsConsistent (next t).0)
      → (t : List World.Event)
      → IsConsistent (Guards.require_gateway_token env unix name query cookie next t).0
  unfolding Guards.require_gateway_token
  gateway-IsConsistent name query cookie next fine t =
      elim (Bool-cases (get_text "token" query == "")) [
        | inl h ↦
            rw (Guards.require_gateway_token, h) (by_cookie-IsConsistent name cookie next fine t)
        | inr h ↦
            rw (Guards.require_gateway_token, h)
              (exchange-IsConsistent name query (get_text "token" query) t)
      ]

  -- Every error answer of the server carries the one status that belongs to its code, for every
  -- request and whatever the API server, the pods and Convex answer.
  pub serve-IsConsistent : (c : Call) (t : List World.Event) → IsConsistent (serve env unix c t).0
  unfolding serve Handlers.handle_healthz
  serve-IsConsistent Call.healthz t = tt
  serve-IsConsistent (Call.deploy a body) t =
      guarded-IsConsistent env a (Handlers.handle_deploy env body)
        (handle_deploy-IsConsistent env body) t
  serve-IsConsistent (Call.read a name) t =
      guarded-IsConsistent env a (Handlers.handle_get env name) (handle_get-IsConsistent env name) t
  serve-IsConsistent (Call.remove a name) t =
      guarded-IsConsistent env a (Handlers.handle_delete env name)
        (handle_delete-IsConsistent env name) t
  serve-IsConsistent (Call.run a name key body) t =
      guarded-IsConsistent env a (Handlers.handle_run_function env name key body)
        (handle_run_function-IsConsistent env name key body) t
  serve-IsConsistent (Call.gateway req cookie) t =
      gateway-IsConsistent req.name req.query cookie (proxied_handler env req)
        (proxied_handler-IsConsistent env req) t
