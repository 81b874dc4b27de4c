-- ===== src/Api/Accepting.antt =====
-- internal/api/server.go: when a deploy is accepted.
use ai_cloud_operator.Base.{
  String, List, ◌∷◌, Option, none, some, true, false, ◌==◌, eq_iff, ok, Option-cases, Result-cases,
  ◌≡◌, ◌≢◌, refl, inl, inr, ◌⊎◌, ◌↔◌, arith,
}
use ai_cloud_operator.Workload.{Workload}
use ai_cloud_operator.Catalog.Types.{Params}
use ai_cloud_operator.Api.World
use ai_cloud_operator.Operator.Provisioning.{create}
use ai_cloud_operator.Api.Handlers.{
  refusal, creation_response, deploy_template, write_of, apply, deploy_image, deploy, handle_deploy,
}
use ai_cloud_operator.Api.Deploying.{
  Stored, missing, encoded, Deployed, from_template, from_image, deploy_template-deploys,
  deploy_image-ok, refusal-none,
}

module _ (env : World.Env) where
  deploy-deploys :
      (t : List World.Event) (req : World.DeployRequest) (w : Workload) (s : List World.Event)
      → deploy env req t ≡ (World.workload 202 w, s)
      → refusal env req ≡ none
      → Deployed env t req w s
  unfolding deploy
  deploy-deploys t req w s e valid = elim (refusal-none env req valid) [
    | inl (named, owned) ↦
        let unnamed : (req.template_name == "") ≡ false =
          ground (arith, eq_iff req.template_name "") in
        deploy_template-deploys env t req w s named owned (ground arith)
    | inr (unnamed, image, name, faultless) ↦
        let empty : (req.template_name == "") ≡ true = (eq_iff req.template_name "").1 unnamed in
        let (raw, config, applied, calls) = deploy_image-ok env t req w s (ground arith) in
        rw calls (from_image raw unnamed image name faultless config applied)
  ]

  refusal-ne :
      (req : World.DeployRequest) (w : Workload) → refusal env req ≢ some (World.workload 202 w)
  unfolding refusal
  refusal-ne req w e = elim (Option-cases (env.label_faults req.name)) [
    | inl f ↦ ground arith
    | inr (faults, f) ↦ ground arith
  ]

  handle_deploy-deploys :
      (body : String) (t : List World.Event) (w : Workload) (s : List World.Event)
      → handle_deploy env body t ≡ (World.workload 202 w, s)
      → (req : World.DeployRequest) × (env.decode_deploy body ≡ ok req) × Deployed env t req w s
  unfolding handle_deploy deploy
  handle_deploy-deploys body t w s e = elim (Result-cases (env.decode_deploy body)) [
    | inr (x, f) ↦ absurd (ground arith)
    | inl (req, f) ↦ elim (Option-cases (refusal env req)) [
      | inr (r, g) ↦
          let answered : r ≡ World.workload 202 w = ground arith in
          absurd (refusal-ne req w (rw (← answered) g))
      | inl g ↦ (req, f, deploy-deploys t req w s (ground arith) g)
    ]
  ]

  Deployed-refusal :
      (t : List World.Event) (req : World.DeployRequest) (w : Workload) (s : List World.Event)
      → Deployed env t req w s
      → refusal env req ≡ none
  unfolding refusal
  Deployed-refusal t req w s (from_template raw named owned f g) =
      ground (arith, eq_iff req.template_name "", eq_iff req.user_id "")
  Deployed-refusal t req w s (from_image raw unnamed image name faultless config applied) =
      ground (arith, eq_iff req.template_name "", eq_iff req.image "", eq_iff req.name "")

  Stored-cases :
      (config : Option Params) (raw : Option String)
      → Stored env config raw
      → ((config ≡ none) × (raw ≡ none))
        ⊎ ((m : Params) × (text : String) × (config ≡ some m)
            × (raw ≡ some text)
            × (env.lib.json_encode m ≡ ok text))
  Stored-cases _ _ missing = inl (refl, refl)
  Stored-cases _ _ (encoded m text e) = inr (m, text, refl, refl, e)

  Stored-deploy_image :
      (t : List World.Event) (req : World.DeployRequest) (w : Workload) (raw : Option String)
      → Stored env req.config raw
      → env.apply_workload t (write_of env req raw) ≡ ok w
      → deploy_image env req t
        ≡ (World.workload 202 w, World.applied_workload (write_of env req raw) ∷ t)
  unfolding deploy_image apply write_of
  Stored-deploy_image t req w raw config applied = elim (Stored-cases req.config raw config) [
    | inl (f, g) ↦
        let stored : env.apply_workload t (write_of env req none) ≡ ok w = rw (← g) applied in
        rw (g, deploy_image, f, apply, stored) refl
    | inr (m, text, f, g, h) ↦
        let stored : env.apply_workload t (write_of env req (some text)) ≡ ok w =
          rw (← g) applied in
        rw (g, deploy_image, f, h, apply, stored) refl
  ]

  deploys-deploy :
      (t : List World.Event) (req : World.DeployRequest) (w : Workload) (s : List World.Event)
      → Deployed env t req w s
      → deploy env req t ≡ (World.workload 202 w, s)
  unfolding deploy deploy_template deploy_image apply create creation_response
  deploys-deploy t req w s (from_template raw named owned f g) =
      let valid = Deployed-refusal t req w s (from_template raw named owned f g) in
      let other : (req.template_name == "") ≡ false = ground (arith, eq_iff req.template_name "") in
      rw (deploy, valid, other, deploy_template, create, f, g) refl
  deploys-deploy t req w s (from_image raw unnamed image name faultless config applied) =
      let valid =
        Deployed-refusal t req w s (from_image raw unnamed image name faultless config applied) in
      let empty : (req.template_name == "") ≡ true = (eq_iff req.template_name "").1 unnamed in
      rw (deploy, valid, empty) (Stored-deploy_image t req w raw config applied)

  -- A deploy is accepted exactly when its body decodes to a request of one of two forms. One names
  -- a template that exists and accepts the config, and a user: then the one call is the creation of
  -- a new Workload under a generated name. The other has an image, no template and a name that is a
  -- label: then the one call applies the request's fields to the Workload of that name. The answer
  -- shows the Workload that the API server returned.
  pub handle_deploy-accepts_iff :
      (body : String) (t : List World.Event) (w : Workload) (s : List World.Event)
      → (handle_deploy env body t ≡ (World.workload 202 w, s))
        ↔ ((req : World.DeployRequest) × (env.decode_deploy body ≡ ok req) × Deployed env t req w s)
  unfolding handle_deploy
  handle_deploy-accepts_iff body t w s = (
    handle_deploy-deploys body t w s,
    λ (req, f, d). rw (handle_deploy, f) (deploys-deploy t req w s d),
  )
