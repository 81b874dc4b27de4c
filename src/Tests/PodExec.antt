-- ===== src/Tests/PodExec.antt =====
-- A backup through the executor at a concrete input.
use ai_cloud_operator.Base.{[], ◌∷◌, none, ok, refl, ◌≡◌, ◌≢◌, ◌↔◌, lookup}
use ai_cloud_operator.Catalog.Types.{Value, Params, PodRef}
use ai_cloud_operator.Catalog.Params.{param_string}
use ai_cloud_operator.Catalog.Backup.{run_backup, backup_label, backup_result}
use ai_cloud_operator.PodExec.{Env, executor, backup_request, exec, run_backup_iff}

-- Every stream opens, and ends without an error.
abbrev env : Env
env = record { spdy_fault = λ req. none; stream = λ req. (("out", ""), none) }

abbrev pod : PodRef
pod = record { namespace = "tenant"; pod_name = "web-1" }

abbrev named : Params
named = ("uploadUrl", Value.text "https://r2.example/put") ∷ ("label", Value.text "mine") ∷ []

uploads :
    run_backup "." "webtop" (executor env) "2026-01-01T00:00:00Z" pod named
    ≡ ok (backup_result "mine")
unfolding run_backup exec param_string lookup backup_label
uploads = refl

run_backup_iff_example :
    let url = param_string named "uploadUrl" "" in
    let req = backup_request env "." "webtop" pod url in
    (run_backup "." "webtop" (executor env) "2026-01-01T00:00:00Z" pod named
      ≡ ok (backup_result "mine"))
    ↔ ((url ≢ "")
        × (env.spdy_fault req ≡ none)
        × ((env.stream req).1 ≡ none)
        × (backup_result "mine" ≡ backup_result (backup_label "2026-01-01T00:00:00Z" named)))
run_backup_iff_example =
    run_backup_iff env "." "webtop" "2026-01-01T00:00:00Z" pod named (backup_result "mine")
