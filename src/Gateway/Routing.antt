-- ===== src/Gateway/Routing.antt =====
-- internal/gateway/proxy.go: when a request is forwarded, and what goes with it.
use ai_cloud_operator.Base.{
  ℕ, String, List, [], ◌∷◌, some, ◌==◌, eq_iff, ok, ErrorKind, is_kind, Bool-cases, Option-cases,
  Result-cases, ◌≡◌, ◌≢◌, refl, ◌↔◌, inl, inr, All, arith,
}
use ai_cloud_operator.Base.Int.{ℤ}
use ai_cloud_operator.Kube.{ServicePort}
use ai_cloud_operator.Workload.{Workload, Phase}
use ai_cloud_operator.Gateway.Page.{
  PageData, Upstream, forward, render_page, render_loading_page, render_failed_page,
  render_stopped_page, render_not_found_page,
}
use ai_cloud_operator.Gateway.Proxy.{
  Event, got_workload, Env, Request, without_token, find_port, upstream, route, relay, by_phase,
  handler,
}

without_token-ne : (q : List (String × String)) → All (λ kv. kv.0 ≢ "token") (without_token q)
unfolding without_token
without_token-ne [] = tt
without_token-ne (entry ∷ rest) = elim (Bool-cases (entry.0 == "token")) [
  | inl hit ↦ rw (hit, without_token) (without_token-ne rest)
  | inr miss ↦
      rw (miss, without_token)
        (λ same. ground (arith, eq_iff entry.0 "token"), without_token-ne rest)
]

-- The list's first port of this name has this number.
pub data FirstPort (entrypoint : String) (port : ℤ) : List ServicePort → Type 0 where
  found :
      {p : ServicePort} {ps : List ServicePort}
      → p.name ≡ entrypoint
      → p.port ≡ port
      → FirstPort entrypoint port (p ∷ ps)
  later :
      {p : ServicePort} {ps : List ServicePort}
      → p.name ≢ entrypoint
      → FirstPort entrypoint port ps
      → FirstPort entrypoint port (p ∷ ps)

find_port-FirstPort :
    (entrypoint : String) (ps : List ServicePort) (port : ℤ)
    → find_port entrypoint ps ≡ some port
    → FirstPort entrypoint port ps
unfolding find_port
find_port-FirstPort entrypoint [] port e = cc
find_port-FirstPort entrypoint (p ∷ ps) port e = elim (Bool-cases (p.name == entrypoint)) [
  | inl hit ↦ found ((eq_iff p.name entrypoint).0 hit) (ground arith)
  | inr miss ↦
      later (λ same. ground (arith, eq_iff p.name entrypoint))
        (find_port-FirstPort entrypoint ps port (ground arith))
]

FirstPort-find_port :
    (entrypoint : String) (ps : List ServicePort) (port : ℤ)
    → FirstPort entrypoint port ps
    → find_port entrypoint ps ≡ some port
unfolding find_port
FirstPort-find_port entrypoint [] port f = elim f [ ]
FirstPort-find_port entrypoint (p ∷ ps) port (found same number) =
    ground (arith, eq_iff p.name entrypoint)
FirstPort-find_port entrypoint (p ∷ ps) port (later other rest) =
    ground (arith, eq_iff p.name entrypoint, FirstPort-find_port entrypoint ps port rest)

module _ (env : Env) (req : Request) where
  -- The request goes to the API server in this way.
  pub record Relayed (t : List Event) (u : Upstream) : Type 0 where
    pub workload : Workload
    pub ports : List ServicePort
    pub port : ℤ
    pub exists : env.get_workload t env.namespace req.name ≡ ok workload
    pub running : workload.status.phase ≡ Phase.running
    pub served :
        env.get_service (got_workload env.namespace req.name ∷ t) env.namespace req.name ≡ ok ports
    pub first : FirstPort req.entrypoint port ports
    pub target : u ≡ upstream env req port

  render_page-ne :
      (status : ℕ) (content : PageData) (u : Upstream)
      → render_page env.execute status content ≢ forward u
  unfolding render_page
  render_page-ne status content u e = ground arith

  not_found-ne : (u : Upstream) → render_not_found_page env.execute req.name ≢ forward u
  unfolding render_not_found_page
  not_found-ne u e = render_page-ne _ _ u e

  route-forwards :
      (ports : List ServicePort) (u : Upstream)
      → route env req ports ≡ forward u
      → (port : ℤ) × FirstPort req.entrypoint port ports × (u ≡ upstream env req port)
  unfolding route
  route-forwards [] u e = cc
  route-forwards (p ∷ ps) u e = elim (Option-cases (find_port req.entrypoint (p ∷ ps))) [
    | inl f ↦ absurd (ground arith)
    | inr (port, f) ↦ (port, find_port-FirstPort req.entrypoint (p ∷ ps) port f, ground arith)
  ]

  route-FirstPort :
      (ports : List ServicePort) (port : ℤ)
      → FirstPort req.entrypoint port ports
      → route env req ports ≡ forward (upstream env req port)
  unfolding route
  route-FirstPort [] port f = elim f [ ]
  route-FirstPort (p ∷ ps) port f =
      let known = FirstPort-find_port req.entrypoint (p ∷ ps) port f in ground arith

  by_phase-forwards :
      (w : Workload) (phase : Phase) (t : List Event) (u : Upstream)
      → (by_phase env req w phase t).0 ≡ forward u
      → (phase ≡ Phase.running) × ((relay env req t).0 ≡ forward u)
  unfolding by_phase render_failed_page render_stopped_page render_loading_page
  by_phase-forwards w Phase.unset t u e = absurd (render_page-ne _ _ u e)
  by_phase-forwards w Phase.deploying t u e = absurd (render_page-ne _ _ u e)
  by_phase-forwards w Phase.running t u e = (refl, e)
  by_phase-forwards w Phase.failed t u e = absurd (render_page-ne _ _ u e)
  by_phase-forwards w Phase.stopped t u e = absurd (render_page-ne _ _ u e)

  relay-forwards :
      (t : List Event) (u : Upstream)
      → (relay env req t).0 ≡ forward u
      → (ports : List ServicePort) × (env.get_service t env.namespace req.name ≡ ok ports)
        × (route env req ports ≡ forward u)
  unfolding relay
  relay-forwards t u e = elim (Result-cases (env.get_service t env.namespace req.name)) [
    | inr (x, f) ↦ absurd (ground arith)
    | inl (ports, f) ↦ (ports, f, ground arith)
  ]

  handler-Relayed :
      (t : List Event) (u : Upstream) → (handler env req t).0 ≡ forward u → Relayed t u
  unfolding handler
  handler-Relayed t u e = elim (Result-cases (env.get_workload t env.namespace req.name)) [
    | inr (x, f) ↦ absurd (elim (Bool-cases (is_kind ErrorKind.not_found x)) [
      | inl g ↦ not_found-ne u (ground arith)
      | inr g ↦ ground arith
    ])
    | inl (w, f) ↦
        let s = got_workload env.namespace req.name ∷ t in
        let (phase, sent) = by_phase-forwards w w.status.phase s u (ground arith) in
        let (ports, served, routed) = relay-forwards s u sent in
        let (port, first, target) = route-forwards ports u routed in
        record {
          workload = w;
          ports = ports;
          port = port;
          exists = f;
          running = phase;
          served = served;
          first = first;
          target = target;
        }
  ]

  Relayed-handler :
      (t : List Event) (u : Upstream) → Relayed t u → (handler env req t).0 ≡ forward u
  unfolding handler relay by_phase
  Relayed-handler t u r =
      let exists = r.exists in
      let phase = r.running in
      let served = r.served in
      let routed = route-FirstPort r.ports r.port r.first in rw r.target (ground arith)

  -- A request is forwarded exactly when the Workload exists and is Running, its Service exists, and
  -- the entrypoint names one of the Service's ports; it then goes to the first such port of that
  -- Service in the operator's own namespace, under the rest of its path.
  pub handler-forwards_iff :
      (t : List Event) (u : Upstream) → ((handler env req t).0 ≡ forward u) ↔ Relayed t u
  handler-forwards_iff t u = (handler-Relayed t u, Relayed-handler t u)

  -- The gateway's own token is never forwarded: no entry of the forwarded query has its name.
  pub handler-no_token :
      (t : List Event) (u : Upstream)
      → (handler env req t).0 ≡ forward u
      → All (λ kv. kv.0 ≢ "token") u.query
  unfolding upstream
  handler-no_token t u e = rw (handler-Relayed t u e).target (without_token-ne req.query)
