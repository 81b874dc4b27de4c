-- ===== src/Setup/Namespace.antt =====
-- internal/workloadns/ensure.go: EnsureNamespace.
use ai_cloud_operator.Base.{
  String, List, [], ◌∷◌, Option, none, some, concat, GoError, errorf, ErrorKind, is_kind,
  if◌then◌else◌,
}
use ai_cloud_operator.Base.Effects.{M, return, call, ◌>>=◌}
use ai_cloud_operator.Setup.World.{Event, created_namespace, patched_namespace, Env}

abbrev pub pod_security_labels : List (String × String)
pod_security_labels =
    ("pod-security.kubernetes.io/enforce", "baseline")
    ∷ ("pod-security.kubernetes.io/audit", "baseline")
    ∷ ("pod-security.kubernetes.io/warn", "baseline")
    ∷ []

module _ (env : Env) where
  abbrev pub namespace_error : String → String → GoError → GoError
  namespace_error before name e = errorf (concat (before ∷ env.quote name ∷ ": " ∷ [])) e ""

  -- The merge patch of a namespace that exists.
  unfoldable pub label_namespace : String → M Event (Option GoError)
  label_namespace name = do
    failed ← call (patched_namespace name pod_security_labels) (λ t. env.patch_namespace t name)
    elim failed [
      | none ↦ return none
      | some e ↦ return (some (namespace_error "labeling existing workload namespace " name e))
    ]

  unfoldable pub ensure_namespace : String → M Event (Option GoError)
  ensure_namespace name = do
    failed ← call (created_namespace name pod_security_labels) (λ t. env.create_namespace t name)
    elim failed [
      | none ↦ return none
      | some e ↦
          if is_kind ErrorKind.already_exists e
          then label_namespace name
          else return (some (namespace_error "creating workload namespace " name e))
    ]
