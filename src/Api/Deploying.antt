-- ===== src/Api/Deploying.antt =====
-- internal/api/server.go: when a deploy is accepted, and what it has then done.
use ai_cloud_operator.Base.{
  String, List, [], ◌∷◌, Option, none, some, ◌==◌, eq_iff, GoError, ok, Option-cases, Bool-cases,
  Result-cases, ◌≡◌, ◌≢◌, refl, inl, inr, ◌⊎◌, arith,
}
use ai_cloud_operator.Workload.{Workload}
use ai_cloud_operator.Catalog.Types.{Params}
use ai_cloud_operator.Operator.World.{ClaimedWorkload, created_workload}
use ai_cloud_operator.Operator.ClaimRuns.{refused, failed, stored, create-CreateRun}
use ai_cloud_operator.Api.World
use ai_cloud_operator.Operator.Provisioning.{checked_config, new_workload}
use ai_cloud_operator.Api.Handlers.{
  refusal, creation_failed, creation_response, deploy_template, write_of, apply, deploy_image,
}

module _ (env : World.Env) where
  -- The config of a Workload with an image, as it is stored.
  pub data Stored : Option Params → Option String → Type 0 where
    missing : Stored none none
    encoded :
        (config : Params) (raw : String)
        → env.lib.json_encode config ≡ ok raw
        → Stored (some config) (some raw)

  -- The deploy of a request: what made it succeed, its Workload and the calls after it.
  pub data Deployed (t : List World.Event) (req : World.DeployRequest) (w : Workload)
      : List World.Event → Type 0 where
    from_template :
        (raw : Option String)
        → req.template_name ≢ ""
        → req.user_id ≢ ""
        → checked_config (env.provisioning t) req.template_name req.config ≡ ok raw
        → (env.provisioning t).create_workload []
            (new_workload (env.provisioning t) "" req.template_name req.user_id req.subdomain raw)
          ≡ ok w
        → Deployed t req w (
            World.provisioned (
              created_workload (
                new_workload
                  (env.provisioning t)
                  ""
                  req.template_name
                  req.user_id
                  req.subdomain
                  raw))
            ∷ t)
    from_image :
        (raw : Option String)
        → req.template_name ≡ ""
        → req.image ≢ ""
        → req.name ≢ ""
        → env.label_faults req.name ≡ none
        → Stored req.config raw
        → env.apply_workload t (write_of env req raw) ≡ ok w
        → Deployed t req w (World.applied_workload (write_of env req raw) ∷ t)

  creation_failed-ne : (e : GoError) (w : Workload) → creation_failed e ≢ World.workload 202 w
  unfolding creation_failed
  creation_failed-ne e w f = ground arith

  abbrev claim_of : World.DeployRequest → ClaimedWorkload
  claim_of req = record {
    workload_id = "";
    config = req.config;
    subdomain = req.subdomain;
    template_id = req.template_name;
    template_version = "";
    user_id = req.user_id;
  }

  -- The answers of the two handlers that a caller reads as accepted.
  pub deploy_template-deploys :
      (t : List World.Event) (req : World.DeployRequest) (w : Workload) (s : List World.Event)
      → req.template_name ≢ ""
      → req.user_id ≢ ""
      → deploy_template env req t ≡ (World.workload 202 w, s)
      → Deployed t req w s
  unfolding deploy_template creation_response
  deploy_template-deploys t req w s named owned e =
      elim (create-CreateRun (env.provisioning t) (claim_of req) []) [
        | refused x f g ↦ absurd (creation_failed-ne x w (ground arith))
        | failed raw x f g ↦ absurd (creation_failed-ne x w (ground arith))
        | stored raw v f g h ↦
            let sent = created_workload (
              new_workload (env.provisioning t) "" req.template_name req.user_id req.subdomain
                raw) in
            let got : deploy_template env req t
                ≡ (World.workload 202 v, World.provisioned sent ∷ t) =
              rw (deploy_template, h) refl in
            let same : v ≡ w = ground arith in
            let calls : s ≡ World.provisioned sent ∷ t = ground arith in
            rw calls (from_template raw named owned f (rw (← same) g))
      ]

  apply-ok :
      (t : List World.Event) (write : World.WorkloadWrite) (w : Workload) (s : List World.Event)
      → apply env write t ≡ (World.workload 202 w, s)
      → (env.apply_workload t write ≡ ok w) × (s ≡ World.applied_workload write ∷ t)
  unfolding apply
  apply-ok t write w s e = elim (Result-cases (env.apply_workload t write)) [
    | inr (x, f) ↦ absurd (ground arith)
    | inl (v, f) ↦ let same : v ≡ w = ground arith in (rw (← same) f, ground arith)
  ]

  pub deploy_image-ok :
      (t : List World.Event) (req : World.DeployRequest) (w : Workload) (s : List World.Event)
      → deploy_image env req t ≡ (World.workload 202 w, s)
      → (raw : Option String) × Stored req.config raw
        × (env.apply_workload t (write_of env req raw) ≡ ok w)
        × (s ≡ World.applied_workload (write_of env req raw) ∷ t)
  unfolding deploy_image
  deploy_image-ok t req w s e = elim (Option-cases req.config) [
    | inl f ↦
        let done = apply-ok t (write_of env req none) w s (ground arith) in
        (none, rw f missing, done.0, done.1)
    | inr (config, f) ↦ elim (Result-cases (env.lib.json_encode config)) [
      | inr (x, g) ↦ absurd (ground arith)
      | inl (raw, g) ↦
          let done = apply-ok t (write_of env req (some raw)) w s (ground arith) in
          (some raw, rw f (encoded config raw g), done.0, done.1)
    ]
  ]

  pub refusal-none :
      (req : World.DeployRequest)
      → refusal env req ≡ none
      → ((req.template_name ≢ "") × (req.user_id ≢ ""))
        ⊎ ((req.template_name ≡ "")
            × (req.image ≢ "")
            × (req.name ≢ "")
            × (env.label_faults req.name ≡ none))
  unfolding refusal
  refusal-none req e = elim (Bool-cases (req.template_name == "")) [
    | inr a ↦ inl (
      (λ x. ground (arith, eq_iff req.template_name "")),
      (λ x. ground (arith, eq_iff req.user_id "")),
    )
    | inl a ↦
        let faultless : env.label_faults req.name ≡ none =
          elim (Option-cases (env.label_faults req.name)) [
            | inl d ↦ d
            | inr (faults, d) ↦ absurd (ground arith)
          ] in
        inr (
          (eq_iff req.template_name "").0 a,
          (λ x. ground (arith, eq_iff req.image "")),
          (λ x. ground (arith, eq_iff req.name "")),
          faultless,
        )
  ]
