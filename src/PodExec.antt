-- ===== src/PodExec.antt =====
-- internal/podexec/exec.go: running a command in a container of a pod.
use ai_cloud_operator.Base.{
  String, List, [], ◌∷◌, Option, none, some, true, ◌==◌, ◌≢◌, ◌≡◌, ◌↔◌, GoError, errorf, ok, err,
  eq_iff, Bool-cases, Option-cases, inl, inr, arith, Result, Bool,
}
use ai_cloud_operator.Catalog.Types.{Params, PodRef, OperationResult}
use ai_cloud_operator.Catalog.Params.{param_string}
use ai_cloud_operator.Catalog.Backup.{
  PodExecutor, backup_script, backup_result, backup_label, run_backup,
}

-- The URL of the `exec` subresource, with its PodExecOptions.
pub record ExecRequest : Type 0 where
  pub name : String
  pub namespace : String
  pub command : List String
  pub container : String
  pub stdout : Bool
  pub stderr : Bool

-- remotecommand: what NewSPDYExecutor answers, and what a stream writes before it ends.
pub record Env : Type 0 where
  pub spdy_fault : ExecRequest → Option GoError
  pub stream : ExecRequest → (String × String) × Option GoError

abbrev pub exec_request : String → String → String → List String → ExecRequest
exec_request namespace pod_name container command = record {
  name = pod_name;
  namespace = namespace;
  command = command;
  container = container;
  stdout = true;
  stderr = true;
}

-- New: where kubernetes.NewForConfig fails there is no executor.
unfoldable pub new {ℓ} : {A : Type ℓ} → Result A → Result A
new (err e) = err (errorf "building kubernetes clientset: " e "")
new (ok clientset) = ok clientset

module _ (env : Env) where
  -- The standard output, the standard error, and the error.
  unfoldable pub exec : String → String → String → List String → (String × String) × Option GoError
  exec namespace pod_name container command =
      let req = exec_request namespace pod_name container command in
      elim (env.spdy_fault req) [
        | some e ↦ (("", ""), some (errorf "building spdy executor: " e ""))
        | none ↦ env.stream req
      ]

  -- As a catalog.PodExecutor, whose operations never read the standard output.
  abbrev pub executor : PodExecutor
  executor namespace pod_name container command =
      let r = exec namespace pod_name container command in (r.0.1, r.1)

  abbrev pub backup_request : String → String → PodRef → String → ExecRequest
  backup_request profile_path container pod upload_url =
      exec_request pod.namespace pod.pod_name container
        ("/bin/sh" ∷ "-c" ∷ backup_script ∷ "sh" ∷ profile_path ∷ upload_url ∷ [])

  -- With this executor, a backup succeeds exactly where there is an address to upload to, and the
  -- stream of one request, whose script is a fixed text with the address as its second argument,
  -- is opened and ends without an error; the result then is the record of the backup.
  pub run_backup_iff :
      (profile_path container now : String) (pod : PodRef) (params : Params)
      (result : OperationResult)
      → let url = param_string params "uploadUrl" "" in
        let req = backup_request profile_path container pod url in
        (run_backup profile_path container executor now pod params ≡ ok result) ↔ (
          (url ≢ "")
          × (env.spdy_fault req ≡ none)
          × ((env.stream req).1 ≡ none)
          × (result ≡ backup_result (backup_label now params)))
  unfolding run_backup exec
  run_backup_iff profile_path container now pod params result =
      let url = param_string params "uploadUrl" "" in
      let blank = eq_iff url "" in
      elim (Bool-cases (url == "")) [
        | inl e ↦ (λ h. absurd (ground arith), λ (f, _, _, _). absurd (f (blank.0 e)))
        | inr e ↦
            elim (Option-cases (env.spdy_fault (backup_request profile_path container pod url))) [
              | inr (x, f) ↦ (λ h. absurd (ground arith), λ (_, g, _, _). absurd (ground arith))
              | inl f ↦
                  elim (Option-cases
                    (env.stream (backup_request profile_path container pod url)).1) [
                      | inr (x, g) ↦
                          (λ h. absurd (ground arith), λ (_, _, k, _). absurd (ground arith))
                      | inl g ↦ (
                        λ h. (
                          (λ k. let hit = blank.1 k in absurd (ground arith)),
                          f,
                          g,
                          ground arith,
                        ),
                        λ (_, _, _, same). ground arith,
                      )
                    ]
            ]
      ]
