-- ===== src/Catalog/Desktop.antt =====
-- internal/catalog: the templates of the browsers and of the desktop.
use ai_cloud_operator.Base.{String, List, [], ◌∷◌, none, some, Result, ok, concat}
use ai_cloud_operator.Base.Int.{pos}
use ai_cloud_operator.Kube.{Container, EnvVar, ServicePort}
use ai_cloud_operator.Catalog.Types.{
  Params, Literal, Parameter, ParameterType, DataSourceKind, SelectOption, Rendered,
}
use ai_cloud_operator.Catalog.Params.{param_string}
use ai_cloud_operator.Catalog.Browser.{
  http_port, https_port, source, no_validation, no_resources, browser_parameters, browser_probe,
  browser_resources, restore_profile_init_container,
}
use ai_cloud_operator.Catalog.Backup.{backup_state_function}
use ai_cloud_operator.Catalog.Template.{Template}

abbrev env_var : String → String → EnvVar
env_var name value = record { name = name; value = value }

-- The container that the three templates share, without the fields in which they differ.
unfoldable pub browser_container : String → Container
unfolding browser_probe
browser_container name = record {
  command = [];
  env = env_var "PUID" "1000" ∷ env_var "PGID" "1000" ∷ env_var "TZ" "Etc/UTC" ∷ [];
  image = "";
  liveness_probe = some (browser_probe (pos 30));
  name = name;
  ports =
      record { container_port = http_port; name = "http" }
      ∷ record { container_port = https_port; name = "https" }
      ∷ [];
  readiness_probe = some (browser_probe (pos 15));
  resources = no_resources;
  volume_mounts = [];
}

abbrev http_service_port : ServicePort
http_service_port = record { name = "http"; port = pos 80; target_port = http_port }

unfoldable pub build_firefox : Params → Result Rendered
unfolding param_string browser_container restore_profile_init_container
build_firefox params =
    let profile_download_url = param_string params "profileDownloadUrl" "" in
    ok (record {
      containers =
          record (browser_container "firefox") {
            image = "linuxserver/firefox:latest";
            resources = browser_resources "1000m" "1500Mi" "3Gi";
            volume_mounts = record { mount_path = "/config"; name = "config" } ∷ [];
          }
          ∷ [];
      init_containers = restore_profile_init_container ".mozilla/firefox" profile_download_url ∷ [];
      volumes = record { name = "config"; medium = ""; size_limit = none } ∷ [];
      service_ports = http_service_port ∷ [];
    })

unfoldable pub firefox : Template
unfolding build_firefox backup_state_function browser_parameters
firefox = record {
  build = build_firefox;
  operations = backup_state_function ".mozilla/firefox" "firefox" "profiles_firefox" ∷ [];
  description = "Full Firefox browser accessible via web interface";
  entrypoints = record { name = "http"; label = "Web" } ∷ [];
  id = "firefox";
  icon = "🦊";
  name = "Firefox Browser";
  version = "1.1.1";
  parameters = browser_parameters "profiles_firefox";
}

unfoldable pub build_chrome : Params → Result Rendered
unfolding param_string browser_container restore_profile_init_container
build_chrome params =
    let profile_download_url = param_string params "profileDownloadUrl" "" in
    ok (record {
      containers =
          record (browser_container "chrome") {
            image = "lscr.io/linuxserver/chrome:latest";
            resources = browser_resources "1000m" "1500Mi" "3Gi";
            volume_mounts =
                record { mount_path = "/config"; name = "config" }
                ∷ record { mount_path = "/dev/shm"; name = "dshm" }
                ∷ [];
          }
          ∷ [];
      init_containers =
          restore_profile_init_container ".config/google-chrome" profile_download_url ∷ [];
      volumes =
          record { name = "config"; medium = ""; size_limit = none }
          ∷ record { name = "dshm"; medium = "Memory"; size_limit = some "4Gi" }
          ∷ [];
      service_ports = http_service_port ∷ [];
    })

unfoldable pub chrome : Template
unfolding build_chrome backup_state_function browser_parameters
chrome = record {
  build = build_chrome;
  operations = backup_state_function ".config/google-chrome" "chrome" "profiles_chrome" ∷ [];
  description = "Full Chrome browser accessible via web interface";
  entrypoints = record { name = "http"; label = "Web" } ∷ [];
  id = "chrome";
  icon = "🌐";
  name = "Chrome Browser";
  version = "1.1.1";
  parameters = browser_parameters "profiles_chrome";
}

abbrev option : String → String → SelectOption
option value label = record { value = value; label = label }

unfoldable pub webtop_flavors : List SelectOption
webtop_flavors =
    option "latest" "Alpine + XFCE (latest)"
    ∷ option "alpine-i3" "Alpine + i3"
    ∷ option "alpine-kde" "Alpine + KDE"
    ∷ option "alpine-mate" "Alpine + MATE"
    ∷ option "arch-i3" "Arch + i3"
    ∷ option "arch-kde" "Arch + KDE"
    ∷ option "arch-mate" "Arch + MATE"
    ∷ option "arch-xfce" "Arch + XFCE"
    ∷ option "debian-i3" "Debian + i3"
    ∷ option "debian-kde" "Debian + KDE"
    ∷ option "debian-mate" "Debian + MATE"
    ∷ option "debian-xfce" "Debian + XFCE"
    ∷ option "fedora-i3" "Fedora + i3"
    ∷ option "fedora-kde" "Fedora + KDE"
    ∷ option "fedora-mate" "Fedora + MATE"
    ∷ option "fedora-xfce" "Fedora + XFCE"
    ∷ option "ubuntu-i3" "Ubuntu + i3"
    ∷ option "ubuntu-kde" "Ubuntu + KDE"
    ∷ option "ubuntu-mate" "Ubuntu + MATE"
    ∷ option "ubuntu-xfce" "Ubuntu + XFCE"
    ∷ []

abbrev flavor_parameter : Parameter
unfolding webtop_flavors
flavor_parameter = record {
  key = "flavor";
  label = "Flavor";
  description = "Base OS and desktop environment combination.";
  kind = ParameterType.select;
  data_source = source DataSourceKind.static;
  default = some (Literal.text "latest");
  options = webtop_flavors;
  visibility = none;
  validation = no_validation;
}

unfoldable pub build_webtop : Params → Result Rendered
unfolding param_string browser_container restore_profile_init_container
build_webtop params =
    let profile_download_url = param_string params "profileDownloadUrl" "" in
    ok (record {
      containers =
          record (browser_container "webtop") {
            image =
                concat ("lscr.io/linuxserver/webtop:" ∷ param_string params "flavor" "latest" ∷ []);
            resources = browser_resources "1500m" "2Gi" "4Gi";
            volume_mounts =
                record { mount_path = "/config"; name = "config" }
                ∷ record { mount_path = "/dev/shm"; name = "dshm" }
                ∷ [];
          }
          ∷ [];
      init_containers = restore_profile_init_container "." profile_download_url ∷ [];
      volumes =
          record { name = "config"; medium = ""; size_limit = none }
          ∷ record { name = "dshm"; medium = "Memory"; size_limit = some "1Gi" }
          ∷ [];
      service_ports = http_service_port ∷ [];
    })

unfoldable pub webtop : Template
unfolding build_webtop webtop_flavors backup_state_function browser_parameters
webtop = record {
  build = build_webtop;
  operations = backup_state_function "." "webtop" "profiles_webtop" ∷ [];
  description = "Full Linux desktop environment accessible via web browser";
  entrypoints = record { name = "http"; label = "Web" } ∷ [];
  id = "webtop";
  icon = "🖥\u{fe0f}";
  name = "Webtop Desktop";
  version = "1.0.0";
  parameters = flavor_parameter ∷ browser_parameters "profiles_webtop";
}
