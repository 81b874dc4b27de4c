-- ===== src/Api/Guards.antt =====
-- internal/api/server.go: the two guards.
use Prim.Native.Char.{code}
use ai_cloud_operator.Base.{
  String, List, [], ◌∷◌, Option, none, some, not, ◌||◌, ◌==◌, eqb, concat, ok, err, get_text,
  if◌then◌else◌,
}
use ai_cloud_operator.Base.Effects.{M, call, ◌>>=◌}
use ai_cloud_operator.Base.Int.{ℤ, pos, ◌+ℤ◌}
use ai_cloud_operator.Gateway.Token.{Payload, sign, verify}
use ai_cloud_operator.Gateway.Page.{render_unauthenticated_page}
use ai_cloud_operator.Gateway.Proxy.{without_token}
use ai_cloud_operator.Api.World.{
  auth_missing_token, auth_invalid_token, internal_error, Response, error, reply, redirect, Event,
  verified_token, Env,
}

-- strings.CutPrefix: what follows the prefix.
unfoldable pub cut_prefix : String → String → Option String
cut_prefix String.[] s = some s
cut_prefix (String.◌∷◌ c p) String.[] = none
cut_prefix (String.◌∷◌ c p) (String.◌∷◌ d s) =
    let rest = cut_prefix p s in if eqb (code c) (code d) then rest else none

-- `gatewayCookieTTL`, in nanoseconds, and time.Time.Unix.
abbrev pub gateway_cookie_ttl : ℤ
gateway_cookie_ttl = pos 1800000000000

module _ (env : Env) where
  -- Access with a token that was presented.
  unfoldable pub admit : String → M Event Response → M Event Response
  admit presented next t =
      if presented == ""
      then (error 401 auth_missing_token "missing bearer token", t)
      else if env.token t == "" || not (presented == env.token t)
      then (error 401 auth_invalid_token "invalid bearer token", t)
      else next t

  unfoldable pub require_deploy_token : String → M Event Response → M Event Response
  require_deploy_token authorization next t = elim (cut_prefix "Bearer " authorization) [
    | none ↦ (error 401 auth_missing_token "missing bearer token", t)
    | some presented ↦ admit presented next t
  ]

  abbrev pub unauthenticated : String → M Event Response
  unauthenticated name t = (reply (render_unauthenticated_page (env.proxy t).execute name), t)

  -- Without a token: the cookie decides.
  unfoldable pub by_cookie : String → Option String → M Event Response → M Event Response
  by_cookie name none next t = unauthenticated name t
  by_cookie name (some cookie) next t =
      elim (verify env.crypto env.gateway_secret env.namespace name (env.now t) cookie) [
        | ok _ ↦ next t
        | err _ ↦ unauthenticated name t
      ]

module _ (env : Env) (unix : ℤ → ℤ) where
  -- The claims of a new cookie.
  abbrev pub session_of : String → String → ℤ → Payload
  session_of name user_id now = record {
    namespace = env.namespace;
    name = name;
    user_id = user_id;
    exp = unix (now +ℤ gateway_cookie_ttl);
  }

  -- From the user that Convex has named.
  unfoldable pub new_session : String → List (String × String) → String → M Event Response
  new_session name query user_id t =
      elim (sign env.crypto env.gateway_secret (session_of name user_id (env.now t))) [
        | err _ ↦ (error 500 internal_error "internal error", t)
        | ok signed ↦ (
          redirect (record { value = signed; path = concat ("/gw/" ∷ name ∷ []) })
              (without_token query),
          t,
        )
      ]

  unfoldable pub exchange : String → List (String × String) → String → M Event Response
  exchange name query token = do
    verified ← call (verified_token token name) (λ t. env.verify_gateway_token t token name)
    elim verified [ err _ ↦ unauthenticated env name | ok user_id ↦ new_session name query user_id ]

  -- A missing token and an empty one are the same.
  unfoldable pub require_gateway_token :
      String → List (String × String) → Option String → M Event Response → M Event Response
  require_gateway_token name query cookie next =
      if get_text "token" query == ""
      then by_cookie env name cookie next
      else exchange name query (get_text "token" query)
