-- ===== src/Api/Redirects.antt =====
-- internal/api/server.go: what follows the exchange of a token for a cookie.
use ai_cloud_operator.Base.{
  String, List, [], ◌∷◌, Option, none, some, false, ◌==◌, eq_iff, eq_refl, concat, get_text, ok,
  Bool-cases, Result-cases, ◌≡◌, ◌≢◌, refl, sym, ap, inl, inr, arith,
}
use ai_cloud_operator.Base.Int.{ℤ}
use ai_cloud_operator.Gateway.Token.{Payload, sign, verify, is_expired}
use ai_cloud_operator.Gateway.Signing.{CryptoLaws, verify-signed}
use ai_cloud_operator.Gateway.Proxy.{Request, without_token}
use ai_cloud_operator.Api.World
use ai_cloud_operator.Api.Guards.{
  session_of, by_cookie, new_session, exchange, require_gateway_token,
}
use ai_cloud_operator.Api.Server.{Call, serve, proxied_handler}
use ai_cloud_operator.Api.Sessions.{without_token-get_text, HasSession-proxies}

module _ (env : World.Env) (unix : ℤ → ℤ) where
  exchange-redirects :
      (name : String) (query q : List (String × String)) (token : String) (t : List World.Event)
      (c : World.Cookie)
      → (exchange env unix name query token t).0 ≡ World.redirect c q
      → (user_id : String) × (env.verify_gateway_token t token name ≡ ok user_id)
        × (sign env.crypto env.gateway_secret
              (session_of env unix name user_id (env.now (World.verified_token token name ∷ t)))
            ≡ ok c.value)
        × (c.path ≡ concat ("/gw/" ∷ name ∷ []))
        × (q ≡ without_token query)
  unfolding exchange new_session
  exchange-redirects name query q token t c e =
      elim (Result-cases (env.verify_gateway_token t token name)) [
        | inr (x, f) ↦ absurd (ground arith)
        | inl (user_id, f) ↦
            let session =
              session_of env unix name user_id (env.now (World.verified_token token name ∷ t)) in
            elim (Result-cases (sign env.crypto env.gateway_secret session)) [
              | inr (x, g) ↦ absurd (ground arith)
              | inl (signed, g) ↦
                  let cookie : World.Cookie = record {
                    value = signed;
                    path = concat ("/gw/" ∷ name ∷ []);
                  } in
                  let made : World.redirect cookie (without_token query) ≡ World.redirect c q =
                    ground arith in
                  let (same, stripped) : (cookie ≡ c) × (without_token query ≡ q) = (cc, cc) in
                  let value : signed ≡ c.value = ap (λ x. x.value) same in
                  (user_id, f, rw (← value) g, sym (ap (λ x. x.path) same), sym stripped)
            ]
      ]

  by_cookie-no_redirect :
      (name : String) (cookie : Option String) (req : Request) (t : List World.Event)
      (c : World.Cookie) (q : List (String × String))
      → (by_cookie env name cookie (proxied_handler env req) t).0 ≢ World.redirect c q
  unfolding by_cookie proxied_handler
  by_cookie-no_redirect name none req t c q e = ground arith
  by_cookie-no_redirect name (some value) req t c q e =
      elim (Result-cases
        (verify env.crypto env.gateway_secret env.namespace name (env.now t) value)) [
          | inl (claims, f) ↦ ground arith
          | inr (x, f) ↦ ground arith
        ]

  signed-verify :
      CryptoLaws env.crypto
      → (s : List World.Event) (p : Payload) (value : String)
      → sign env.crypto env.gateway_secret p ≡ ok value
      → is_expired (env.now s) p ≡ false
      → verify env.crypto env.gateway_secret p.namespace p.name (env.now s) value ≡ ok p
  signed-verify laws s p value signed fresh =
      let verdict =
        verify-signed env.crypto laws env.gateway_secret p.namespace p.name (env.now s) p value
          signed in
      ground (arith, eq_refl p.namespace, eq_refl p.name)

  -- The claims of the cookie.
  abbrev claims_of : List World.Event → Request → String → Payload
  claims_of t req user_id =
      session_of env unix req.name user_id
        (env.now (World.verified_token (get_text "token" req.query) req.name ∷ t))

  -- What a redirect promises.
  pub record Promised (t : List World.Event) (req : Request) (c : World.Cookie)
      (q : List (String × String)) : Type 0 where
    pub user_id : String
    pub token : String
    pub presented : get_text "token" req.query ≡ token
    pub nonempty : token ≢ ""
    pub accepted : env.verify_gateway_token t token req.name ≡ ok user_id
    pub path : c.path ≡ concat ("/gw/" ∷ req.name ∷ [])
    pub admits :
        (s : List World.Event)
        → is_expired (env.now s) (
            session_of env unix req.name user_id
              (env.now (World.verified_token token req.name ∷ t)))
          ≡ false
        → serve env unix (Call.gateway (record req { query = q }) (some c.value)) s
          ≡ proxied_handler env (record req { query = q }) s

  -- The gateway redirects only a request whose token Convex has accepted for the Workload of its
  -- path. The request it redirects to, with the cookie it sets, reaches the proxy at every moment at
  -- which the cookie's time and thirty seconds of grace are not over. The encodings must decode to
  -- what was encoded, and base64 must have no dot.
  pub serve-redirects :
      CryptoLaws env.crypto
      → (t : List World.Event) (req : Request) (cookie : Option String) (c : World.Cookie)
        (q : List (String × String))
      → (serve env unix (Call.gateway req cookie) t).0 ≡ World.redirect c q
      → Promised t req c q
  unfolding serve require_gateway_token
  serve-redirects laws t req cookie c q e = elim (Bool-cases (get_text "token" req.query == "")) [
    | inl h ↦ absurd (by_cookie-no_redirect req.name cookie req t c q (ground arith))
    | inr h ↦
        let (user_id, accepted, signed, path, stripped) =
          exchange-redirects req.name req.query q (get_text "token" req.query) t c (ground arith) in
        record {
          user_id = user_id;
          token = get_text "token" req.query;
          presented = refl;
          nonempty = λ none. ground (arith, eq_iff (get_text "token" req.query) "");
          accepted = accepted;
          path = path;
          admits = λ s fresh.
              HasSession-proxies env unix s (record req { query = q }) (some c.value)
                (record {
                  value = c.value;
                  claims = claims_of t req user_id;
                  without = rw stripped (without_token-get_text req.query);
                  sent = refl;
                  valid = signed-verify laws s (claims_of t req user_id) c.value signed fresh;
                });
        }
  ]
