-- ===== src/Catalog/Nginx.antt =====
-- internal/catalog: the templates of nginx.
use ai_cloud_operator.Base.{ℕ, ◌*◌, ◌^◌, String, List, [], ◌∷◌, none, some, Result, ok}
use ai_cloud_operator.Base.Int.{pos}
use ai_cloud_operator.Kube.{EnvVar}
use ai_cloud_operator.Catalog.Types.{
  Params, Literal, Parameter, ParameterType, DataSourceKind, SelectOption, Rendered, Library,
}
use ai_cloud_operator.Catalog.Params.{param_string, param_int32}
use ai_cloud_operator.Catalog.Browser.{source, no_validation}
use ai_cloud_operator.Catalog.Template.{Template}

abbrev env_var : String → String → EnvVar
env_var name value = record { name = name; value = value }

abbrev option : String → String → SelectOption
option value label = record { value = value; label = label }

-- 2 ^ 1074: the float64 1, counted in least positive floats.
abbrev float_one : ℕ
float_one = 2 ^ 1074

unfoldable pub nginx_parameters : List Parameter
nginx_parameters =
    record {
      key = "logLevel";
      label = "Log level";
      description = "";
      kind = ParameterType.select;
      data_source = source DataSourceKind.static;
      default = some (Literal.text "info");
      options = option "info" "Info" ∷ option "warn" "Warn" ∷ option "error" "Error" ∷ [];
      visibility = none;
      validation = no_validation;
    }
    ∷ record {
      key = "workerConnections";
      label = "Worker connections";
      description = "Passed through as an env var for illustration.";
      kind = ParameterType.number;
      data_source = source DataSourceKind.static;
      default = some (Literal.float (pos (1024 * float_one)));
      options = [];
      visibility = none;
      validation = record no_validation {
        min = some (pos 0);
        max = some (pos (65536 * float_one));
      };
    }
    ∷ []

module _ (lib : Library) where
  unfoldable pub build_nginx : Params → Result Rendered
  unfolding param_string param_int32
  build_nginx params =
      let log_level = param_string params "logLevel" "info" in
      let worker_connections = param_int32 lib params "workerConnections" (pos 1024) in
      ok (record {
        containers =
            record {
              command = [];
              env =
                  env_var "LOG_LEVEL" log_level
                  ∷ env_var "WORKER_CONNECTIONS" (lib.show_int worker_connections)
                  ∷ [];
              image = "nginxdemos/hello:latest";
              liveness_probe = none;
              name = "nginx";
              ports = record { container_port = pos 80; name = "http" } ∷ [];
              readiness_probe = none;
              resources = record {
                limits = record { cpu = some "200m"; memory = some "128Mi" };
                requests = record { cpu = some "50m"; memory = some "64Mi" };
              };
              volume_mounts = [];
            }
            ∷ [];
        init_containers = [];
        volumes = [];
        service_ports = record { name = "http"; port = pos 80; target_port = pos 80 } ∷ [];
      })

  unfoldable pub nginx : Template
  unfolding build_nginx nginx_parameters
  nginx = record {
    build = build_nginx;
    operations = [];
    description = "Simple nginx web server with hello world demo";
    entrypoints = record { name = "http"; label = "Web" } ∷ [];
    id = "nginx";
    icon = "🌐";
    name = "Nginx";
    version = "1.0.0";
    parameters = nginx_parameters;
  }
