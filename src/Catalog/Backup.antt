-- ===== src/Catalog/Backup.antt =====
-- internal/catalog/browser.go: the `backup_state` operation on a running workload.
use ai_cloud_operator.Base.{
  String, List, [], ◌∷◌, Option, none, some, Bool, false, ◌==◌, concat, Result, ok, err, GoError,
  leaf, errorf, ErrorKind, if◌then◌else◌,
}
use ai_cloud_operator.Catalog.Types.{
  Params, DataSourceKind, FileDirection, ParameterType, Parameter, PodRef, AdditionalInfoType,
  Value, OperationResult,
}
use ai_cloud_operator.Catalog.Params.{param_string}
use ai_cloud_operator.Catalog.Browser.{source, no_validation, required_only}

-- PodExecutor.Exec: namespace, pod, container and command, to the standard error and the error.
abbrev pub PodExecutor : Type 0
PodExecutor = String → String → String → List String → String × Option GoError

-- `run` also takes the time of day as RFC 3339 text. It makes at most one call of the executor.
pub record Operation : Type 0 where
  pub key : String
  pub label : String
  pub description : String
  pub parameters : List Parameter
  pub refreshable : Bool
  pub run : PodExecutor → String → PodRef → Params → Result OperationResult

unfoldable pub backup_parameters : String → List Parameter
backup_parameters profile_source_key =
    record {
      key = "label";
      label = "Backup name";
      description =
          "A name to identify this saved profile later, when restoring it into a future deploy.";
      kind = ParameterType.string;
      data_source = source DataSourceKind.static;
      default = none;
      options = [];
      visibility = none;
      validation = no_validation;
    }
    ∷ record {
      key = "uploadUrl";
      label = "Upload URL (system)";
      description = "";
      kind = ParameterType.string;
      data_source = record (source DataSourceKind.file) {
        direction = FileDirection.upload;
        group = profile_source_key;
      };
      default = none;
      options = [];
      visibility = none;
      validation = required_only;
    }
    ∷ []

abbrev pub backup_script : String
backup_script = concat (
    "set -e\n" ∷ "tar czf /tmp/backup.tar.gz -C /config \"$1\" || {\n" ∷ "  rc=$?\n"
    ∷ "  if [ \"$rc\" -gt 1 ]; then\n" ∷ "    exit \"$rc\"\n" ∷ "  fi\n" ∷ "}\n"
    ∷ "curl -sf -X PUT --upload-file /tmp/backup.tar.gz \"$2\"\n" ∷ "rm -f /tmp/backup.tar.gz\n"
    ∷ [])

abbrev pub backup_result : String → OperationResult
backup_result label = record {
  additional_info =
      record {
        name = "result";
        kind = AdditionalInfoType.plain;
        value = Value.text "backup_state.success";
      }
      ∷ [];
  file = some (record { kind = "browser_profile_backup"; label = label });
}

-- A backup that the caller did not name is named by the time.
unfoldable pub backup_label : String → Params → String
unfolding param_string
backup_label now params =
    let label = param_string params "label" "" in
    if label == "" then concat ("Backup " ∷ now ∷ []) else label

unfoldable pub run_backup :
    String → String → PodExecutor → String → PodRef → Params → Result OperationResult
unfolding param_string backup_label
run_backup profile_path container exec now pod params =
    let upload_url = param_string params "uploadUrl" "" in
    if upload_url == ""
    then err (leaf ErrorKind.plain "uploadUrl is required")
    else let command = "/bin/sh" ∷ "-c" ∷ backup_script ∷ "sh" ∷ profile_path ∷ upload_url ∷ [] in
      let (stderr, failed) = exec pod.namespace pod.pod_name container command in
      elim failed [
        | some e ↦ err (errorf "backup exec failed: " e (concat (" (stderr: " ∷ stderr ∷ ")" ∷ [])))
        | none ↦ ok (backup_result (backup_label now params))
      ]

unfoldable pub backup_state_function : String → String → String → Operation
unfolding backup_parameters run_backup
backup_state_function profile_path container profile_source_key = record {
  key = "backup_state";
  label = "Backup profile";
  description =
      "Tars the current browser profile and uploads it to R2 so it can be restored into a future deploy.";
  parameters = backup_parameters profile_source_key;
  refreshable = false;
  run = run_backup profile_path container;
}
