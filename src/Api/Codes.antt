-- ===== src/Api/Codes.antt =====
-- internal/api: the status of an error answer against its code.
use ai_cloud_operator.Base.{
  ℕ, String, List, [], ◌∷◌, Option, none, some, ◌==◌, GoError, ErrorKind, is_kind, Result, ok, err,
  Option-cases, Bool-cases, Result-cases, ◌≡◌, refl, subst, inl, inr,
}
use ai_cloud_operator.Workload.{Workload}
use ai_cloud_operator.Catalog.Types.{Params}
use ai_cloud_operator.Catalog.Params.{resolve_params}
use ai_cloud_operator.Catalog.Backup.{Operation}
use ai_cloud_operator.Catalog.Registry.{get, get_operation}
use ai_cloud_operator.Operator.Provisioning.{create, destroy, entries}
use ai_cloud_operator.Api.World
use ai_cloud_operator.Api.Handlers

-- The status that belongs to a code.
abbrev pub status_of : World.Code → ℕ
status_of World.auth_missing_token = 401
status_of World.auth_invalid_token = 401
status_of World.workload_not_found = 404
status_of World.catalog_function_unknown = 404
status_of World.workload_no_running_pod = 409
status_of World.catalog_function_failed = 500
status_of World.internal_error = 500
status_of _ = 400

abbrev pub IsConsistent : World.Response → Type 0
IsConsistent (World.error status code message) = status ≡ status_of code
IsConsistent _ = Unit

module _ (env : World.Env) where
  get_failed-IsConsistent : (e : GoError) → IsConsistent (Handlers.get_failed e)
  unfolding Handlers.get_failed
  get_failed-IsConsistent e = elim (Bool-cases (is_kind ErrorKind.not_found e)) [
    | inl h ↦ rw (Handlers.get_failed, h) refl
    | inr h ↦ rw (Handlers.get_failed, h) refl
  ]

  creation_failed-IsConsistent : (e : GoError) → IsConsistent (Handlers.creation_failed e)
  unfolding Handlers.creation_failed
  creation_failed-IsConsistent e = elim (Bool-cases (is_kind ErrorKind.unknown_template e)) [
    | inl h ↦ rw (Handlers.creation_failed, h) refl
    | inr h ↦ elim (Bool-cases (is_kind ErrorKind.invalid_config e)) [
      | inl k ↦ rw (Handlers.creation_failed, h, k) refl
      | inr k ↦ rw (Handlers.creation_failed, h, k) refl
    ]
  ]

  run_operation-IsConsistent :
      (op : Operation) (params : Params) (pod : String) (t : List World.Event)
      → IsConsistent (Handlers.run_operation env op params pod t).0
  unfolding Handlers.run_operation
  run_operation-IsConsistent op params pod t =
      elim (Result-cases (
        op.run (env.executor t) (env.now_text t)
          (record { namespace = env.namespace; pod_name = pod }) params)) [
            | inl (result, f) ↦ rw (Handlers.run_operation, f) tt
            | inr (e, f) ↦ rw (Handlers.run_operation, f) refl
          ]

  run_on_pod-IsConsistent :
      (name : String) (op : Operation) (params : Params) (t : List World.Event)
      → IsConsistent (Handlers.run_on_pod env name op params t).0
  unfolding Handlers.run_on_pod Handlers.find_pod
  run_on_pod-IsConsistent name op params t = elim (Result-cases (Handlers.find_pod env name t).0) [
    | inl (pod, f) ↦
        rw (Handlers.run_on_pod, f)
          (run_operation-IsConsistent op params pod (Handlers.find_pod env name t).1)
    | inr (e, f) ↦ rw (Handlers.run_on_pod, f) refl
  ]

  run_with_params-IsConsistent :
      (name : String) (op : Operation) (raw : Option Params) (t : List World.Event)
      → IsConsistent (Handlers.run_with_params env name op raw t).0
  unfolding Handlers.run_with_params
  run_with_params-IsConsistent name op raw t =
      elim (Result-cases (resolve_params env.lib op.parameters (entries raw))) [
        | inl (params, f) ↦
            rw (Handlers.run_with_params, f) (run_on_pod-IsConsistent name op params t)
        | inr (e, f) ↦ rw (Handlers.run_with_params, f) refl
      ]

  run_function-IsConsistent :
      (name key : String) (raw : Option Params) (template_name : String) (t : List World.Event)
      → IsConsistent (Handlers.run_function env name key raw template_name t).0
  unfolding Handlers.run_function
  run_function-IsConsistent name key raw template_name t =
      elim (Option-cases (get env.lib template_name)) [
        | inl f ↦ rw (Handlers.run_function, f) refl
        | inr (tmpl, f) ↦ elim (Option-cases (get_operation tmpl key)) [
          | inl g ↦ rw (Handlers.run_function, f, g) refl
          | inr (op, g) ↦
              rw (Handlers.run_function, f, g) (run_with_params-IsConsistent name op raw t)
        ]
      ]

  pub handle_run_function-IsConsistent :
      (name key body : String) (t : List World.Event)
      → IsConsistent (Handlers.handle_run_function env name key body t).0
  unfolding Handlers.handle_run_function
  handle_run_function-IsConsistent name key body t = elim (Result-cases (env.decode_run body)) [
    | inr (e, f) ↦ rw (Handlers.handle_run_function, f) refl
    | inl (raw, f) ↦ elim (Result-cases (env.get_workload t name)) [
      | inr (e, g) ↦ rw (Handlers.handle_run_function, f, g) (get_failed-IsConsistent e)
      | inl (w, g) ↦
          rw (Handlers.handle_run_function, f, g)
            (run_function-IsConsistent name key raw w.spec.template_name
              (World.got_workload name ∷ t))
    ]
  ]

  creation_response-IsConsistent :
      (created : Result Workload) → IsConsistent (Handlers.creation_response env created)
  unfolding Handlers.creation_response
  creation_response-IsConsistent (err e) = creation_failed-IsConsistent e
  creation_response-IsConsistent (ok w) = tt

  deploy_template-IsConsistent :
      (req : World.DeployRequest) (t : List World.Event)
      → IsConsistent (Handlers.deploy_template env req t).0
  unfolding Handlers.deploy_template
  deploy_template-IsConsistent req t =
      creation_response-IsConsistent
        (create (env.provisioning t) "" req.template_name req.user_id req.subdomain req.config []).0

  apply-IsConsistent :
      (write : World.WorkloadWrite) (t : List World.Event)
      → IsConsistent (Handlers.apply env write t).0
  unfolding Handlers.apply
  apply-IsConsistent write t = elim (Result-cases (env.apply_workload t write)) [
    | inr (e, f) ↦ rw (Handlers.apply, f) refl
    | inl (w, f) ↦ rw (Handlers.apply, f) tt
  ]

  deploy_image-IsConsistent :
      (req : World.DeployRequest) (t : List World.Event)
      → IsConsistent (Handlers.deploy_image env req t).0
  unfolding Handlers.deploy_image
  deploy_image-IsConsistent req t = elim (Option-cases req.config) [
    | inl f ↦ rw (Handlers.deploy_image, f) (apply-IsConsistent _ t)
    | inr (config, f) ↦ elim (Result-cases (env.lib.json_encode config)) [
      | inr (e, g) ↦ rw (Handlers.deploy_image, f, g) refl
      | inl (raw, g) ↦
          rw (Handlers.deploy_image, f, g)
            (apply-IsConsistent (Handlers.write_of env req (some raw)) t)
    ]
  ]

  abbrev AllConsistent : Option World.Response → Type 0
  AllConsistent none = Unit
  AllConsistent (some r) = IsConsistent r

  refusal-AllConsistent : (req : World.DeployRequest) → AllConsistent (Handlers.refusal env req)
  unfolding Handlers.refusal
  refusal-AllConsistent req = elim (Bool-cases (req.template_name == "")) [
    | inr a ↦ elim (Bool-cases (req.user_id == "")) [
      | inl b ↦ rw (Handlers.refusal, a, b) refl
      | inr b ↦ rw (Handlers.refusal, a, b) tt
    ]
    | inl a ↦ elim (Bool-cases (req.image == "")) [
      | inl b ↦ rw (Handlers.refusal, a, b) refl
      | inr b ↦ elim (Bool-cases (req.name == "")) [
        | inl c ↦ rw (Handlers.refusal, a, b, c) refl
        | inr c ↦ elim (Option-cases (env.label_faults req.name)) [
          | inl d ↦ rw (Handlers.refusal, a, b, c, d) tt
          | inr (faults, d) ↦ rw (Handlers.refusal, a, b, c, d) refl
        ]
      ]
    ]
  ]

  refusal-IsConsistent :
      (req : World.DeployRequest) (r : World.Response)
      → Handlers.refusal env req ≡ some r
      → IsConsistent r
  refusal-IsConsistent req r e = subst AllConsistent e (refusal-AllConsistent req)

  pub handle_deploy-IsConsistent :
      (body : String) (t : List World.Event) → IsConsistent (Handlers.handle_deploy env body t).0
  unfolding Handlers.handle_deploy Handlers.deploy
  handle_deploy-IsConsistent body t = elim (Result-cases (env.decode_deploy body)) [
    | inr (e, f) ↦ rw (Handlers.handle_deploy, f) refl
    | inl (req, f) ↦ elim (Option-cases (Handlers.refusal env req)) [
      | inr (r, g) ↦
          rw (Handlers.handle_deploy, f, Handlers.deploy, g) (refusal-IsConsistent req r g)
      | inl g ↦ elim (Bool-cases (req.template_name == "")) [
        | inl h ↦
            rw (Handlers.handle_deploy, f, Handlers.deploy, g, h) (deploy_image-IsConsistent req t)
        | inr h ↦
            rw (Handlers.handle_deploy, f, Handlers.deploy, g, h)
              (deploy_template-IsConsistent req t)
      ]
    ]
  ]

  pub handle_get-IsConsistent :
      (name : String) (t : List World.Event) → IsConsistent (Handlers.handle_get env name t).0
  unfolding Handlers.handle_get
  handle_get-IsConsistent name t = elim (Result-cases (env.get_workload t name)) [
    | inr (e, f) ↦ rw (Handlers.handle_get, f) (get_failed-IsConsistent e)
    | inl (w, f) ↦ rw (Handlers.handle_get, f) tt
  ]

  pub handle_delete-IsConsistent :
      (name : String) (t : List World.Event) → IsConsistent (Handlers.handle_delete env name t).0
  unfolding Handlers.handle_delete destroy
  handle_delete-IsConsistent name t = elim (Option-cases (destroy (env.provisioning t) name []).0) [
    | inr (e, f) ↦ rw (Handlers.handle_delete, f) refl
    | inl f ↦ rw (Handlers.handle_delete, f) tt
  ]
