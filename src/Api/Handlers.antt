-- ===== src/Api/Handlers.antt =====
-- internal/api/server.go and internal/podexec: the handlers behind the guards.
use ai_cloud_operator.Base.{
  String, List, [], ◌∷◌, Option, none, some, ◌&&◌, ◌==◌, concat, GoError, leaf, errorf, message,
  ErrorKind, is_kind, Result, ok, err, if◌then◌else◌,
}
use ai_cloud_operator.Base.Effects.{M, return, call, ◌>>=◌}
use ai_cloud_operator.Kube.{Pod}
use ai_cloud_operator.Workload.{Workload}
use ai_cloud_operator.Catalog.Types.{Params}
use ai_cloud_operator.Catalog.Params.{resolve_params}
use ai_cloud_operator.Catalog.Backup.{Operation}
use ai_cloud_operator.Catalog.Registry.{get, get_operation}
use ai_cloud_operator.Operator.Provisioning.{create, destroy, entries}
use ai_cloud_operator.Api.World

-- The loop of FindPod.
unfoldable pub first_running : List Pod → Option String
first_running [] = none
first_running (p ∷ ps) =
    let rest = first_running ps in if p.phase == "Running" then some p.name else rest

-- How the errors of the creator are told apart.
unfoldable pub creation_failed : GoError → World.Response
creation_failed e =
    if is_kind ErrorKind.unknown_template e
    then World.error 400 World.catalog_template_unknown (message e)
    else if is_kind ErrorKind.invalid_config e
    then World.error 400 World.workload_invalid_config (message e)
    else World.error 500 World.internal_error
        (concat ("failed to create workload: " ∷ message e ∷ []))

-- A failed Get.
unfoldable pub get_failed : GoError → World.Response
get_failed e =
    if is_kind ErrorKind.not_found e
    then World.error 404 World.workload_not_found "workload not found"
    else World.error 500 World.internal_error (concat ("failed to get workload: " ∷ message e ∷ []))

module _ (env : World.Env) where
  abbrev answer : World.Response → M World.Event World.Response
  answer r t = (r, t)

  unfoldable pub handle_healthz : M World.Event World.Response
  handle_healthz = answer World.healthy

  unfoldable pub find_pod : String → M World.Event (Result String)
  find_pod name = do
    listed ← call (World.listed_pods name) (λ t. env.list_pods t name)
    elim listed [
      | err e ↦ return (err (errorf "listing pods: " e ""))
      | ok pods ↦ elim (first_running pods) [
        | some pod ↦ return (ok pod)
        | none ↦ return (
            err (
              leaf ErrorKind.plain
                (concat ("no running pod found for workload " ∷ env.lib.quote name ∷ []))))
      ]
    ]

  unfoldable pub run_operation : Operation → Params → String → M World.Event World.Response
  run_operation op params pod = do
    ran ← call (World.ran_operation pod op.key) (λ t.
        op.run (env.executor t) (env.now_text t)
          (record { namespace = env.namespace; pod_name = pod }) params)
    elim ran [
      | err e ↦ answer (
          World.error 500 World.catalog_function_failed
            (concat ("function failed: " ∷ message e ∷ [])))
      | ok result ↦ answer (World.result result)
    ]

  unfoldable pub run_on_pod : String → Operation → Params → M World.Event World.Response
  run_on_pod name op params = do
    found ← find_pod name
    elim found [
      | err e ↦ answer (
          World.error 409 World.workload_no_running_pod
            (concat ("workload has no running pod: " ∷ message e ∷ [])))
      | ok pod ↦ run_operation op params pod
    ]

  -- From the operation on.
  unfoldable pub run_with_params : String → Operation → Option Params → M World.Event World.Response
  run_with_params name op raw = elim (resolve_params env.lib op.parameters (entries raw)) [
    | err e ↦ answer (World.error 400 World.catalog_invalid_params (message e))
    | ok params ↦ run_on_pod name op params
  ]

  -- From the Workload's template on.
  unfoldable pub run_function :
      String → String → Option Params → String → M World.Event World.Response
  run_function name key raw template_name = elim (get env.lib template_name) [
    | none ↦ answer (
        World.error 400 World.catalog_template_unknown
          (concat ("unknown template " ∷ env.lib.quote template_name ∷ [])))
    | some tmpl ↦ elim (get_operation tmpl key) [
      | none ↦ answer (
          World.error 404 World.catalog_function_unknown (
            concat (
              "unknown function "
              ∷ env.lib.quote key
              ∷ " for template "
              ∷ env.lib.quote tmpl.id
              ∷ [])))
      | some op ↦ run_with_params name op raw
    ]
  ]

  unfoldable pub handle_run_function : String → String → String → M World.Event World.Response
  handle_run_function name key body = elim (env.decode_run body) [
    | err _ ↦ answer (World.error 400 World.request_invalid_json "invalid json body")
    | ok raw ↦ do
      got ← call (World.got_workload name) (λ t. env.get_workload t name)
      elim got [
        | err e ↦ answer (get_failed e)
        | ok w ↦ run_function name key raw w.spec.template_name
      ]
  ]

  unfoldable pub creation_response : Result Workload → World.Response
  creation_response (err e) = creation_failed e
  creation_response (ok w) = World.workload 202 w

  -- The path with a template: always a new Workload.
  unfoldable pub deploy_template : World.DeployRequest → M World.Event World.Response
  deploy_template req = do
    created ←
        World.within World.provisioned (λ t.
          create (env.provisioning t) "" req.template_name req.user_id req.subdomain req.config)
    answer (creation_response created)

  -- What the mutate function writes.
  unfoldable pub write_of : World.DeployRequest → Option String → World.WorkloadWrite
  write_of req raw = record {
    name = req.name;
    namespace = env.namespace;
    image = req.image;
    replicas = req.replicas;
    container_port = req.container_port;
    env = req.env;
    subdomain = req.subdomain;
    user_id = req.user_id;
    config = raw;
  }

  unfoldable pub apply : World.WorkloadWrite → M World.Event World.Response
  apply write = do
    applied ← call (World.applied_workload write) (λ t. env.apply_workload t write)
    elim applied [
      | err e ↦ answer (
          World.error 500 World.internal_error
            (concat ("failed to apply workload: " ∷ message e ∷ [])))
      | ok w ↦ answer (World.workload 202 w)
    ]

  -- The path with an image: CreateOrUpdate under the request's name.
  unfoldable pub deploy_image : World.DeployRequest → M World.Event World.Response
  deploy_image req = elim req.config [
    | none ↦ apply (write_of req none)
    | some config ↦ elim (env.lib.json_encode config) [
      | err e ↦ answer (
          World.error 400 World.workload_invalid_config
            (concat ("invalid config: " ∷ message e ∷ [])))
      | ok raw ↦ apply (write_of req (some raw))
    ]
  ]

  -- The checks of the request before anything is asked of others.
  unfoldable pub refusal : World.DeployRequest → Option World.Response
  refusal req =
      if (req.template_name == "") && (req.image == "")
      then some (
          World.error 400 World.workload_image_required
            "image is required when templateName is unset")
      else if req.template_name == ""
      then (if req.name == ""
          then some (
              World.error 400 World.workload_name_required
                "name is required for a non-template deploy")
          else elim (env.label_faults req.name) [
            | none ↦ none
            | some faults ↦ some (
                World.error 400 World.workload_invalid_name
                  (concat ("invalid name " ∷ env.lib.quote req.name ∷ ": " ∷ faults ∷ [])))
          ])
      else if req.user_id == ""
      then some (
          World.error 400 World.workload_user_id_required
            "userId is required for a template deploy")
      else none

  unfoldable pub deploy : World.DeployRequest → M World.Event World.Response
  deploy req = elim (refusal req) [
    | some r ↦ answer r
    | none ↦ if req.template_name == "" then deploy_image req else deploy_template req
  ]

  unfoldable pub handle_deploy : String → M World.Event World.Response
  handle_deploy body = elim (env.decode_deploy body) [
    | err _ ↦ answer (World.error 400 World.request_invalid_json "invalid json body")
    | ok req ↦ deploy req
  ]

  unfoldable pub handle_get : String → M World.Event World.Response
  handle_get name = do
    got ← call (World.got_workload name) (λ t. env.get_workload t name)
    elim got [ err e ↦ answer (get_failed e) | ok w ↦ answer (World.workload 200 w) ]

  unfoldable pub handle_delete : String → M World.Event World.Response
  handle_delete name = do
    failed ← World.within World.provisioned (λ t. destroy (env.provisioning t) name)
    elim failed [
      | some e ↦ answer (
          World.error 500 World.internal_error
            (concat ("failed to delete workload: " ∷ message e ∷ [])))
      | none ↦ answer World.no_content
    ]
