-- ===== src/Api/World.antt =====
-- internal/api: requests, responses and error codes, and what the handlers ask of others.
use ai_cloud_operator.Base.{ℕ, String, List, [], ◌++◌, map, Option, Result}
use ai_cloud_operator.Base.Effects.{M}
use ai_cloud_operator.Base.Int.{ℤ}
use ai_cloud_operator.Kube.{EnvVar, Pod}
use ai_cloud_operator.Workload.{Workload}
use ai_cloud_operator.Catalog.Types.{Params, Library, OperationResult}
use ai_cloud_operator.Catalog.Backup.{PodExecutor}
use ai_cloud_operator.Gateway.Token.{Crypto}
use ai_cloud_operator.Gateway.Page.{Reply}
use ai_cloud_operator.Gateway.Proxy
use ai_cloud_operator.Operator

-- The stable codes of apierror.go.
pub data Code : Type 0 where
  auth_missing_token auth_invalid_token : Code
  request_invalid_json : Code
  workload_not_found workload_image_required workload_user_id_required : Code
  workload_name_required workload_invalid_name workload_invalid_config : Code
  workload_no_running_pod : Code
  catalog_template_unknown catalog_function_unknown catalog_invalid_params : Code
  catalog_function_failed : Code
  internal_error : Code

-- The attributes of the cookie that are not constants.
pub record Cookie : Type 0 where
  pub value : String
  pub path : String

-- `redirect` sets the cookie and leads to the same path, with this query.
pub data Response : Type 0 where
  error : (status : ℕ) → Code → (message : String) → Response
  healthy no_content : Response
  workload : (status : ℕ) → Workload → Response
  result : OperationResult → Response
  reply : Reply → Response
  redirect : Cookie → (query : List (String × String)) → Response

pub record DeployRequest : Type 0 where
  pub name : String
  pub template_name : String
  pub image : String
  pub replicas : Option ℤ
  pub container_port : ℤ
  pub env : List EnvVar
  pub subdomain : String
  pub user_id : String
  pub config : Option Params

-- The fields that the mutate function of the CreateOrUpdate writes.
pub record WorkloadWrite : Type 0 where
  pub name : String
  pub namespace : String
  pub image : String
  pub replicas : Option ℤ
  pub container_port : ℤ
  pub env : List EnvVar
  pub subdomain : String
  pub user_id : String
  pub config : Option String

pub data Event : Type 0 where
  got_workload listed_pods : (name : String) → Event
  ran_operation : (pod key : String) → Event
  applied_workload : WorkloadWrite → Event
  verified_token : (token name : String) → Event
  provisioned : Operator.World.Event → Event
  proxied : Proxy.Event → Event

-- `provisioning` and `proxy` are the worlds of the two packages from a history on.
pub record Env : Type 0 where
  pub lib : Library
  pub crypto : Crypto
  pub namespace : String
  pub gateway_secret : String
  -- The TokenGetter.
  pub token : List Event → String
  -- Unix nanoseconds, and the same as RFC 3339 text.
  pub now : List Event → ℤ
  pub now_text : List Event → String
  pub decode_deploy : String → Result DeployRequest
  -- `none` is a missing or null `params`.
  pub decode_run : String → Result (Option Params)
  -- validation.IsDNS1123Label: the faults of a name, joined; none for a label.
  pub label_faults : String → Option String
  pub get_workload : List Event → String → Result Workload
  pub list_pods : List Event → String → Result (List Pod)
  pub executor : List Event → PodExecutor
  pub apply_workload : List Event → WorkloadWrite → Result Workload
  pub verify_gateway_token : List Event → String → String → Result String
  pub provisioning : List Event → Operator.World.Env
  pub proxy : List Event → Proxy.Env

-- A computation of another package, run from this history on.
abbrev pub within {ℓ} : {E F : Type 0} {A : Type ℓ} → (F → E) → (List E → M F A) → M E A
within wrap m t = let r = m t [] in (r.0, map wrap r.1 ++ t)
