-- ===== src/Operator/Provisioning.antt =====
-- internal/provisioning/creator.go: creating, changing and deleting Workload resources.
use ai_cloud_operator.Base.{
  String, [], ◌∷◌, Option, none, some, Bool, false, ◌==◌, concat, GoError, leaf, errorf, message,
  ErrorKind, is_kind, Result, ok, err, if◌then◌else◌,
}
use ai_cloud_operator.Base.Effects.{M, return, call, ◌>>=◌}
use ai_cloud_operator.Base.Int.{pos}
use ai_cloud_operator.Workload.{Workload, Phase}
use ai_cloud_operator.Catalog.Types.{Params}
use ai_cloud_operator.Catalog.Params.{resolve_params}
use ai_cloud_operator.Catalog.Registry.{get}
use ai_cloud_operator.Operator.World.{
  Env, Event, got_workload, created_workload, updated_workload, deleted_workload,
}

-- ErrUnknownTemplate and ErrInvalidConfig, wrapped as Create and Redeploy do.
abbrev pub unknown_template : String → GoError
unknown_template quoted =
    errorf "" (leaf ErrorKind.unknown_template "unknown template") (concat (": " ∷ quoted ∷ []))

abbrev pub invalid_config : GoError → GoError
invalid_config e =
    errorf "" (leaf ErrorKind.invalid_config "invalid config") (concat (": " ∷ message e ∷ []))

-- A nil map reads as an empty one.
abbrev pub entries : Option Params → Params
entries none = []
entries (some m) = m

module _ (env : Env) where
  unfoldable pub marshal_config : Option Params → Result (Option String)
  marshal_config none = ok none
  marshal_config (some m) = elim (env.lib.json_encode m) [ ok raw ↦ ok (some raw) | err e ↦ err e ]

  -- The checks that Create and Redeploy share: the template exists, and accepts the config. The
  -- result is the config as the resource stores it.
  unfoldable pub checked_config : String → Option Params → Result (Option String)
  checked_config template_name config = elim (get env.lib template_name) [
    | none ↦ err (unknown_template (env.lib.quote template_name))
    | some tmpl ↦ elim (resolve_params env.lib tmpl.parameters (entries config)) [
      | err e ↦ err (invalid_config e)
      | ok _ ↦ elim (marshal_config config) [ err e ↦ err (invalid_config e) | ok raw ↦ ok raw ]
    ]
  ]

  -- The resource that Create sends.
  unfoldable pub new_workload : String → String → String → String → Option String → Workload
  new_workload workload_id template_name user_id subdomain raw = record {
    name = "";
    generate_name = concat (template_name ∷ "-" ∷ []);
    namespace = env.namespace;
    uid = "";
    generation = 0;
    labels = if workload_id == "" then [] else ("apps.aicloud.dev/workload-id", workload_id) ∷ [];
    finalizers = [];
    deleting = false;
    spec = record {
      template_name = template_name;
      image = "";
      replicas = none;
      container_port = pos 0;
      env = [];
      subdomain = subdomain;
      user_id = user_id;
      config = raw;
      suspended = false;
      last_redeployed_at = "";
    };
    status = record {
      phase = Phase.unset;
      ready_replicas = pos 0;
      observed_generation = 0;
      conditions = [];
    };
  }

  unfoldable pub create :
      String → String → String → String → Option Params → M Event (Result Workload)
  create workload_id template_name user_id subdomain config =
      elim (checked_config template_name config) [
        | err e ↦ return (err e)
        | ok raw ↦ do
          let w = new_workload workload_id template_name user_id subdomain raw
          stored ← call (created_workload w) (λ t. env.create_workload t w)
          elim stored [
            | err e ↦ return (err (errorf "creating workload: " e ""))
            | ok w' ↦ return (ok w')
          ]
      ]

  abbrev wrapped : String → String → GoError → GoError
  wrapped verb name e = errorf (concat (verb ∷ " workload " ∷ env.lib.quote name ∷ ": " ∷ [])) e ""

  -- Update, and the error as Redeploy and SetSuspended wrap it.
  unfoldable pub put : String → Workload → M Event (Option GoError)
  put name w = do
    stored ← call (updated_workload w) (λ t. env.update_workload t w)
    elim stored [ err e ↦ return (some (wrapped "updating" name e)) | ok _ ↦ return none ]

  unfoldable pub redeploy : String → Option Params → M Event (Option GoError)
  redeploy name config = do
    got ← call (got_workload name) (λ t. env.get_workload t name)
    elim got [
      | err e ↦ return (some (wrapped "getting" name e))
      | ok w ↦ elim (checked_config w.spec.template_name config) [
        | err e ↦ return (some e)
        | ok raw ↦ do
          now ← λ t. (env.now t, t)
          put name (record w { spec = record (w.spec) { config = raw; last_redeployed_at = now } })
      ]
    ]

  unfoldable pub set_suspended : String → Bool → M Event (Option GoError)
  set_suspended name suspended = do
    got ← call (got_workload name) (λ t. env.get_workload t name)
    elim got [
      | err e ↦ return (some (wrapped "getting" name e))
      | ok w ↦ put name (record w { spec = record (w.spec) { suspended = suspended } })
    ]

  unfoldable pub destroy : String → M Event (Option GoError)
  destroy name = do
    failed ← call (deleted_workload name) (λ t. env.delete_workload t name)
    elim failed [
      | none ↦ return none
      | some e ↦
          return (if is_kind ErrorKind.not_found e then none else some (wrapped "deleting" name e))
    ]
