-- ===== src/Setup/Options.antt =====
-- cmd/main.go: the flags, and what `main` makes of them for the manager.
-- internal/controller/workload_controller.go: SetupWithManager.
use ai_cloud_operator.Base.{ℕ, String, List, [], ◌∷◌, Bool, true, false, not, ◌==◌, if◌then◌else◌}

pub record Flags : Type 0 where
  pub metrics_addr : String
  pub probe_addr : String
  pub enable_leader_election : Bool
  pub secure_metrics : Bool
  pub webhook_cert_path : String
  pub webhook_cert_name : String
  pub webhook_cert_key : String
  pub metrics_cert_path : String
  pub metrics_cert_name : String
  pub metrics_cert_key : String
  pub enable_http2 : Bool

-- What each flag is where the command line does not set it.
abbrev pub default_flags : Flags
default_flags = record {
  metrics_addr = "0";
  probe_addr = ":8081";
  enable_leader_election = false;
  secure_metrics = true;
  webhook_cert_path = "";
  webhook_cert_name = "tls.crt";
  webhook_cert_key = "tls.key";
  metrics_cert_path = "";
  metrics_cert_name = "tls.crt";
  metrics_cert_key = "tls.key";
  enable_http2 = false;
}

-- The one field of tls.Config that main sets.
pub record TlsConfig : Type 0 where
  pub next_protos : List String

abbrev pub TlsOption : Type 0
TlsOption = TlsConfig → TlsConfig

-- The functions are applied in turn, each to the result of the one before.
unfoldable pub apply_options : List TlsOption → TlsConfig → TlsConfig
apply_options [] c = c
apply_options (f ∷ fs) c = apply_options fs (f c)

abbrev pub disable_http2 : TlsOption
disable_http2 c = record c { next_protos = "http/1.1" ∷ [] }

unfoldable pub tls_opts : Flags → List TlsOption
tls_opts flags = if not flags.enable_http2 then disable_http2 ∷ [] else []

-- Without a certificate path the three texts stay empty.
pub record Certificate : Type 0 where
  pub cert_dir : String
  pub cert_name : String
  pub key_name : String

unfoldable pub certificate_of : String → String → String → Certificate
certificate_of path name key =
    if not (path == "")
    then record { cert_dir = path; cert_name = name; key_name = key }
    else record { cert_dir = ""; cert_name = ""; key_name = "" }

-- webhook.Options.
pub record WebhookOptions : Type 0 where
  pub tls_opts : List TlsOption
  pub certificate : Certificate

-- metricsserver.Options; `is_filtered` says that the filter for authentication and authorization
-- is set.
pub record MetricsOptions : Type 0 where
  pub bind_address : String
  pub secure_serving : Bool
  pub tls_opts : List TlsOption
  pub is_filtered : Bool
  pub certificate : Certificate

unfoldable pub webhook_options : Flags → WebhookOptions
unfolding tls_opts certificate_of
webhook_options flags = record {
  tls_opts = tls_opts flags;
  certificate =
      certificate_of flags.webhook_cert_path flags.webhook_cert_name flags.webhook_cert_key;
}

unfoldable pub metrics_options : Flags → MetricsOptions
unfolding tls_opts certificate_of
metrics_options flags = record {
  bind_address = flags.metrics_addr;
  secure_serving = flags.secure_metrics;
  tls_opts = tls_opts flags;
  is_filtered = if flags.secure_metrics then true else false;
  certificate =
      certificate_of flags.metrics_cert_path flags.metrics_cert_name flags.metrics_cert_key;
}

-- ctrl.Options; `uncached` are the kinds that are read from the API server each time.
pub record ManagerOptions : Type 0 where
  pub uncached : List String
  pub metrics : MetricsOptions
  pub webhook : WebhookOptions
  pub health_probe_bind_address : String
  pub leader_election : Bool
  pub leader_election_id : String

unfoldable pub manager_options : Flags → ManagerOptions
unfolding webhook_options metrics_options
manager_options flags = record {
  uncached = "Secret" ∷ [];
  metrics = metrics_options flags;
  webhook = webhook_options flags;
  health_probe_bind_address = flags.probe_addr;
  leader_election = flags.enable_leader_election;
  leader_election_id = "75dfcc5e.aicloud.dev";
}

-- What the controller is told to watch.
pub record ControllerOptions : Type 0 where
  pub reconciles : String
  pub owns : List String
  pub named : String
  pub max_concurrent_reconciles : ℕ

abbrev pub controller_options : ControllerOptions
controller_options = record {
  reconciles = "Workload";
  owns = "Deployment" ∷ "Service" ∷ [];
  named = "workload";
  max_concurrent_reconciles = 5;
}
