-- ===== src/Setup/Launched.antt =====
-- cmd/main.go: what `main` has done where the manager runs.
use ai_cloud_operator.Base.{
  ℕ, List, [], ◌∷◌, ◌++◌, map, Option, none, some, ok, GoError, Option-cases, Result-cases, ◌≡◌,
  refl, ◌↔◌, ◌⊎◌, inl, inr, All, false, arith,
}
use ai_cloud_operator.Base.Effects.{M}
use ai_cloud_operator.Setup.World
use ai_cloud_operator.Setup.Options.{
  Flags, TlsConfig, apply_options, ManagerOptions, manager_options, controller_options,
}
use ai_cloud_operator.Setup.Integration.{setup_convex_integration}
use ai_cloud_operator.Setup.Started.{Started, setup_convex_integration-Started}
use ai_cloud_operator.Setup.Launch.{
  Event, read_config, made_manager, integrated, made_controller, added_healthz, added_readyz,
  started_manager, Env, flags, step_then, run_manager, add_checks, integrate, main,
}

-- Both servers of the manager speak HTTP/1.1 alone, whatever configuration they begin with.
abbrev pub SpeaksHttp1 : ManagerOptions → Type 0
SpeaksHttp1 o =
    (c : TlsConfig)
    → ((apply_options o.webhook.tls_opts c).next_protos ≡ "http/1.1" ∷ [])
      × ((apply_options o.metrics.tls_opts c).next_protos ≡ "http/1.1" ∷ [])

module _ (env : Env) where
  -- A call before the start of the manager, which is made as the flags ask.
  abbrev pub IsPreparation : Event → Type 0
  IsPreparation started_manager = ⊥
  IsPreparation (made_manager o) = (flags env).enable_http2 ≡ false → SpeaksHttp1 o
  IsPreparation _ = Unit

  -- What comes before the controller, newest first.
  abbrev merged : List World.Event → List Event
  merged calls =
      map integrated calls ++ made_manager (manager_options (flags env)) ∷ read_config ∷ []

  -- What comes before the start, newest first.
  abbrev pub prepared : List World.Event → List Event
  prepared calls =
      added_readyz ∷ added_healthz ∷ made_controller controller_options ∷ map integrated calls
      ++ made_manager (manager_options (flags env)) ∷ read_config ∷ []

  -- What is called before the start, the integration apart, has succeeded.
  pub record Ready : Type 0 where
    pub configured : env.get_config ≡ none
    pub managed : env.new_manager (manager_options (flags env)) ≡ none
    pub controlled : env.setup_with_manager controller_options ≡ none
    pub healthy : env.add_healthz_check ≡ none
    pub readable : env.add_readyz_check ≡ none

  abbrev pub IsIntegrated : Type 0
  IsIntegrated = (a : World.Settings) × ((setup_convex_integration env.integration []).0 ≡ ok a)

  -- The manager was not started, since something failed; or it was, by the last call, once all was ready.
  abbrev pub Launch : ℕ × List Event → Type 0
  Launch r =
      ((r.0 ≡ 1) × All IsPreparation r.1 × (¬ (Ready × IsIntegrated)))
      ⊎ ((a : World.Settings) × (calls : List World.Event) × Started env.integration [] a calls
          × Ready
          × (r.1 ≡ started_manager ∷ prepared calls)
          × All IsPreparation (prepared calls)
          × ((r.0 ≡ 0) ↔ (env.start_manager (prepared calls) ≡ none)))

  step_then-cases :
      (P : ℕ × List Event → Type 0) (event : Event) (answer : List Event → Option GoError)
      (next : M Event ℕ) (t : List Event)
      → ((x : GoError) → answer t ≡ some x → P (1, event ∷ t))
      → (answer t ≡ none → P (next (event ∷ t)))
      → P (step_then env event answer next t)
  unfolding step_then
  step_then-cases P event answer next t fails goes = elim (Option-cases (answer t)) [
    | inl f ↦ rw (step_then, f) (goes f)
    | inr (x, f) ↦ rw (step_then, f) (fails x f)
  ]

  manager_options-SpeaksHttp1 :
      (fl : Flags) → fl.enable_http2 ≡ false → SpeaksHttp1 (manager_options fl)
  unfolding manager_options apply_options
  manager_options-SpeaksHttp1 fl off c = rw off (refl, refl)

  integrated-IsPreparation :
      (calls : List World.Event) (t : List Event)
      → All IsPreparation t
      → All IsPreparation (map integrated calls ++ t)
  integrated-IsPreparation [] t h = h
  integrated-IsPreparation (e ∷ es) t h = (tt, integrated-IsPreparation es t h)

  run_manager-Launch :
      (a : World.Settings) (calls : List World.Event)
      → Started env.integration [] a calls
      → Ready
      → All IsPreparation (prepared calls)
      → Launch (run_manager env (prepared calls))
  unfolding run_manager step_then
  run_manager-Launch a calls h all ready =
      elim (Option-cases (env.start_manager (prepared calls))) [
        | inl f ↦ inr (a, calls, h, all, ground arith, ready, (λ e. f, λ e. ground arith))
        | inr (x, f) ↦ inr (
          a,
          calls,
          h,
          all,
          ground arith,
          ready,
          (λ e. absurd (ground arith), λ e. absurd (ground arith)),
        )
      ]

  made_manager-ready :
      All IsPreparation (made_manager (manager_options (flags env)) ∷ read_config ∷ [])
  made_manager-ready = (manager_options-SpeaksHttp1 (flags env), (tt, tt))

  -- From the controller on, with these parts in place and this done.
  add_checks-Launch :
      (a : World.Settings) (calls : List World.Event)
      → Started env.integration [] a calls
      → env.get_config ≡ none
      → env.new_manager (manager_options (flags env)) ≡ none
      → All IsPreparation (merged calls)
      → Launch (add_checks env (merged calls))
  unfolding add_checks
  add_checks-Launch a calls begun configured managed ready =
      step_then-cases Launch (made_controller controller_options) _ _ _
        (λ x h. inl (refl, (tt, ready), λ (all, _). let k = all.controlled in ground arith))
        (λ controlled.
          step_then-cases Launch added_healthz _ _ _
            (λ x h. inl (refl, (tt, (tt, ready)), λ (all, _). let k = all.healthy in ground arith))
            (λ healthy.
              step_then-cases Launch added_readyz _ _ _
                (λ x h.
                  inl (
                    refl,
                    (tt, (tt, (tt, ready))),
                    λ (all, _). let k = all.readable in ground arith,
                  ))
                (λ readable.
                  run_manager-Launch a calls begun
                    (record {
                      configured = configured;
                      managed = managed;
                      controlled = controlled;
                      healthy = healthy;
                      readable = readable;
                    })
                    (tt, (tt, (tt, ready))))))

  integrate-Launch :
      env.get_config ≡ none
      → env.new_manager (manager_options (flags env)) ≡ none
      → Launch (integrate env (made_manager (manager_options (flags env)) ∷ read_config ∷ []))
  unfolding integrate
  integrate-Launch configured managed =
      let t = made_manager (manager_options (flags env)) ∷ read_config ∷ [] in
      let r = setup_convex_integration env.integration [] in
      let ready = integrated-IsPreparation r.1 t made_manager-ready in
      elim (Result-cases r.0) [
        | inr (x, f) ↦
            let same : integrate env t ≡ (1, merged r.1) = ground arith in
            rw same (inl (refl, ready, λ (all, (a, g)). ground arith))
        | inl (a, f) ↦
            let begun = setup_convex_integration-Started env.integration [] r.1 a (ground arith) in
            let same : integrate env t ≡ add_checks env (merged r.1) = ground arith in
            rw same (add_checks-Launch a r.1 begun configured managed ready)
      ]

  -- The manager is started at most once, as the last call of `main`, and that exactly where a
  -- configuration was found, the manager was made, the parts of the integration are in place, and
  -- the controller and both health checks were added without an error; then the exit code is 0
  -- exactly where it stops without an error. Where it is not started, the exit code is 1. Unless the
  -- flags ask for HTTP/2, the two servers of the manager speak HTTP/1.1 alone.
  pub main-Launch : Launch (main env [])
  unfolding main
  main-Launch =
      step_then-cases Launch read_config _ _ []
        (λ x h. inl (refl, (tt, tt), λ (all, _). let k = all.configured in ground arith))
        (λ configured.
          step_then-cases Launch (made_manager (manager_options (flags env))) _ _ _
            (λ x h. inl (refl, made_manager-ready, λ (all, _). let k = all.managed in ground arith))
            (λ managed. integrate-Launch configured managed))
