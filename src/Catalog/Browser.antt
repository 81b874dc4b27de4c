-- ===== src/Catalog/Browser.antt =====
-- internal/catalog/browser.go: what the browser and desktop templates share.
use ai_cloud_operator.Base.{String, List, [], ◌∷◌, Option, none, some, true, false, concat}
use ai_cloud_operator.Base.Int.{ℤ, pos}
use ai_cloud_operator.Kube.{Container, Probe, Resources}
use ai_cloud_operator.Catalog.Types.{
  Literal, DataSource, DataSourceKind, FileDirection, ParameterType, Validation, Visibility,
  VisibilityOp, Parameter,
}

abbrev pub http_port : ℤ
http_port = pos 3000

abbrev pub https_port : ℤ
https_port = pos 3001

-- A data source, and a validation, with only the fields that Go's literal sets.
abbrev pub source : DataSourceKind → DataSource
source k = record {
  kind = k;
  source_key = "";
  direction = FileDirection.unset;
  source_param = "";
  group = "";
}

abbrev pub no_validation : Validation
no_validation = record { required = false; min = none; max = none; regex = ""; max_length = none }

abbrev pub required_only : Validation
required_only = record no_validation { required = true }

abbrev pub when_restoring : Option Visibility
when_restoring = some (record {
  depends_on = "restoreProfile";
  op = VisibilityOp.equals;
  value = Literal.bool true;
  values = [];
})

unfoldable pub browser_parameters : String → List Parameter
browser_parameters profile_source_key =
    record {
      key = "profileName";
      label = "Profile name";
      description = "Identifies which saved profile to restore, if any.";
      kind = ParameterType.select;
      data_source = record (source DataSourceKind.file_options) { group = profile_source_key };
      default = none;
      options = [];
      visibility = when_restoring;
      validation = required_only;
    }
    ∷ record {
      key = "restoreProfile";
      label = "Restore saved profile";
      description = "";
      kind = ParameterType.boolean;
      data_source = source DataSourceKind.static;
      default = some (Literal.bool false);
      options = [];
      visibility = none;
      validation = no_validation;
    }
    ∷ record {
      key = "profileDownloadUrl";
      label = "Profile download URL (system)";
      description = "";
      kind = ParameterType.string;
      data_source = record (source DataSourceKind.file) {
        direction = FileDirection.download;
        source_param = "profileName";
      };
      default = none;
      options = [];
      visibility = when_restoring;
      validation = no_validation;
    }
    ∷ []

abbrev pub no_resources : Resources
no_resources = record {
  limits = record { cpu = none; memory = none };
  requests = record { cpu = none; memory = none };
}

-- The script that the init container runs; the profile's path stands in its second line.
unfoldable pub restore_script : String → String
restore_script profile_path = concat (
    "set -e\n" ∷ "PROFILE_DIR=\"/config/" ∷ profile_path ∷ "\"\n" ∷ "mkdir -p \"$PROFILE_DIR\"\n"
    ∷ "if [ -n \"$PROFILE_DOWNLOAD_URL\" ]; then\n"
    ∷ "  echo \"Attempting profile restore from R2...\"\n"
    ∷ "  if wget -q -O /tmp/profile.tar.gz \"$PROFILE_DOWNLOAD_URL\"; then\n"
    ∷ "    tar -xzf /tmp/profile.tar.gz -C /config\n" ∷ "    rm -f /tmp/profile.tar.gz\n"
    ∷ "    echo \"Profile restored successfully\"\n" ∷ "  else\n"
    ∷ "    echo \"No existing profile found (or download failed), starting fresh\"\n"
    ∷ "    rm -f /tmp/profile.tar.gz\n" ∷ "  fi\n" ∷ "else\n"
    ∷ "  echo \"No profile restore requested, starting fresh\"\n" ∷ "fi\n"
    ∷ "chown -R 1000:1000 /config\n" ∷ "chmod -R 755 /config\n" ∷ [])

unfoldable pub restore_profile_init_container : String → String → Container
unfolding restore_script
restore_profile_init_container profile_path profile_download_url = record {
  command = "/bin/sh" ∷ "-c" ∷ restore_script profile_path ∷ [];
  env = record { name = "PROFILE_DOWNLOAD_URL"; value = profile_download_url } ∷ [];
  image = "alpine:latest";
  liveness_probe = none;
  name = "restore-profile";
  ports = [];
  readiness_probe = none;
  resources = no_resources;
  volume_mounts = record { mount_path = "/config"; name = "config" } ∷ [];
}

unfoldable pub browser_resources : String → String → String → Resources
browser_resources cpu mem_request mem_limit = record {
  limits = record { cpu = some cpu; memory = some mem_limit };
  requests = record { cpu = some cpu; memory = some mem_request };
}

unfoldable pub browser_probe : ℤ → Probe
browser_probe initial_delay = record {
  failure_threshold = pos 3;
  initial_delay_seconds = initial_delay;
  period_seconds = pos 10;
  path = "/";
  port = http_port;
  timeout_seconds = pos 5;
}
