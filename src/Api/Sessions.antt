-- ===== src/Api/Sessions.antt =====
-- internal/api/server.go and internal/gateway: a browser's session, from the token to the proxy.
use ai_cloud_operator.Base.{
  String, List, [], ◌∷◌, Option, none, some, true, ◌==◌, eq_iff, get_text, lookup, ok, Bool-cases,
  Result-cases, ◌≡◌, ◌≢◌, refl, ap, inl, inr, ◌↔◌, arith,
}
use ai_cloud_operator.Base.Effects.{M}
use ai_cloud_operator.Base.Int.{ℤ}
use ai_cloud_operator.Gateway.Token.{Payload, sign, verify}
use ai_cloud_operator.Gateway.Page.{Upstream, forward, render_page, render_unauthenticated_page}
use ai_cloud_operator.Gateway.Proxy.{Request, without_token, handler}
use ai_cloud_operator.Gateway.Routing.{Relayed, handler-forwards_iff}
use ai_cloud_operator.Api.World
use ai_cloud_operator.Api.Guards.{
  unauthenticated, session_of, by_cookie, new_session, exchange, require_gateway_token,
}
use ai_cloud_operator.Api.Server.{Call, serve, proxied_handler}

pub without_token-get_text : (q : List (String × String)) → get_text "token" (without_token q) ≡ ""
unfolding get_text lookup without_token
without_token-get_text [] = refl
without_token-get_text (entry ∷ rest) =
    let tail = without_token-get_text rest in
    elim (Bool-cases (entry.0 == "token")) [
      | inl hit ↦ rw (without_token, hit) tail
      | inr miss ↦ rw (without_token, miss, get_text, lookup, miss) tail
    ]

module _ (env : World.Env) (unix : ℤ → ℤ) where
  -- The request has no token, and a cookie that is valid for its Workload now.
  pub record HasSession (t : List World.Event) (req : Request) (cookie : Option String)
      : Type 0 where
    pub value : String
    pub claims : Payload
    pub without : get_text "token" req.query ≡ ""
    pub sent : cookie ≡ some value
    pub valid :
        verify env.crypto env.gateway_secret env.namespace req.name (env.now t) value ≡ ok claims

  valid-by_cookie :
      (t : List World.Event) (name value : String) (claims : Payload)
      (next : M World.Event World.Response)
      → verify env.crypto env.gateway_secret env.namespace name (env.now t) value ≡ ok claims
      → by_cookie env name (some value) next t ≡ next t
  unfolding by_cookie
  valid-by_cookie t name value claims next e = rw (by_cookie, e) refl

  pub HasSession-proxies :
      (t : List World.Event) (req : Request) (cookie : Option String)
      → HasSession t req cookie
      → serve env unix (Call.gateway req cookie) t ≡ proxied_handler env req t
  unfolding serve require_gateway_token by_cookie
  HasSession-proxies t req cookie h =
      let empty : (get_text "token" req.query == "") ≡ true = (eq_iff _ "").1 h.without in
      rw (h.sent, require_gateway_token, empty)
        (valid-by_cookie t req.name h.value h.claims (proxied_handler env req) h.valid)

  unauthenticated-ne :
      (name : String) (t : List World.Event) (u : Upstream)
      → (unauthenticated env name t).0 ≢ World.reply (forward u)
  unfolding render_unauthenticated_page render_page
  unauthenticated-ne name t u e = ground arith

  new_session-ne :
      (name : String) (query : List (String × String)) (user_id : String) (t : List World.Event)
      (u : Upstream)
      → (new_session env unix name query user_id t).0 ≢ World.reply (forward u)
  unfolding new_session
  new_session-ne name query user_id t u e =
      let session = session_of env unix name user_id (env.now t) in
      elim (Result-cases (sign env.crypto env.gateway_secret session)) [
        | inl (signed, f) ↦ ground arith
        | inr (x, f) ↦ ground arith
      ]

  exchange-ne :
      (name : String) (query : List (String × String)) (token : String) (t : List World.Event)
      (u : Upstream)
      → (exchange env unix name query token t).0 ≢ World.reply (forward u)
  unfolding exchange
  exchange-ne name query token t u e = elim (Result-cases (env.verify_gateway_token t token name)) [
    | inr (x, f) ↦ unauthenticated-ne name (World.verified_token token name ∷ t) u (ground arith)
    | inl (user_id, f) ↦
        new_session-ne name query user_id (World.verified_token token name ∷ t) u (ground arith)
  ]

  by_cookie-HasSession :
      (t : List World.Event) (req : Request) (cookie : Option String) (u : Upstream)
      → get_text "token" req.query ≡ ""
      → (by_cookie env req.name cookie (proxied_handler env req) t).0 ≡ World.reply (forward u)
      → HasSession t req cookie
  unfolding by_cookie
  by_cookie-HasSession t req none u without e = absurd (unauthenticated-ne req.name t u e)
  by_cookie-HasSession t req (some value) u without e =
      elim (Result-cases
        (verify env.crypto env.gateway_secret env.namespace req.name (env.now t) value)) [
          | inr (x, f) ↦ absurd (unauthenticated-ne req.name t u (ground arith))
          | inl (claims, f) ↦ record {
            value = value;
            claims = claims;
            without = without;
            sent = refl;
            valid = f;
          }
        ]

  serve-HasSession :
      (t : List World.Event) (req : Request) (cookie : Option String) (u : Upstream)
      → (serve env unix (Call.gateway req cookie) t).0 ≡ World.reply (forward u)
      → HasSession t req cookie
  unfolding serve require_gateway_token
  serve-HasSession t req cookie u e = elim (Bool-cases (get_text "token" req.query == "")) [
    | inl h ↦ by_cookie-HasSession t req cookie u ((eq_iff _ "").0 h) (ground arith)
    | inr h ↦
        absurd (exchange-ne req.name req.query (get_text "token" req.query) t u (ground arith))
  ]

  proxied_handler-forwards :
      (t : List World.Event) (req : Request) (u : Upstream)
      → (proxied_handler env req t).0 ≡ World.reply (forward u)
      → (handler (env.proxy t) req []).0 ≡ forward u
  unfolding proxied_handler
  proxied_handler-forwards t req u e = ground arith

  forwards-proxied_handler :
      (t : List World.Event) (req : Request) (u : Upstream)
      → (handler (env.proxy t) req []).0 ≡ forward u
      → (proxied_handler env req t).0 ≡ World.reply (forward u)
  unfolding proxied_handler
  forwards-proxied_handler t req u e = ap World.reply e

  -- A request of the gateway is forwarded exactly when it has no token, its cookie verifies for the
  -- Workload of its path at this time, that Workload is Running and its Service has a port of the
  -- entrypoint's name; it then goes to the first such port.
  pub serve-forwards_iff :
      (t : List World.Event) (req : Request) (cookie : Option String) (u : Upstream)
      → ((serve env unix (Call.gateway req cookie) t).0 ≡ World.reply (forward u))
        ↔ (HasSession t req cookie × Relayed (env.proxy t) req [] u)
  serve-forwards_iff t req cookie u = (
    λ e.
        let session = serve-HasSession t req cookie u e in
        let same = HasSession-proxies t req cookie session in
        (
          session,
          (handler-forwards_iff (env.proxy t) req [] u).0
              (proxied_handler-forwards t req u (rw (← same) e)),
        ),
    λ (session, relayed). rw (HasSession-proxies t req cookie session) (
        forwards-proxied_handler t req u ((handler-forwards_iff (env.proxy t) req [] u).1 relayed)),
  )
