-- ===== src/Setup/Integration.antt =====
-- cmd/main.go: setupConvexIntegration, and internal/convexclient/enrollment.go.
use Prim.Native.Char.{Char, code}
use ai_cloud_operator.Base.{
  String, List, [], ◌∷◌, Option, none, some, Bool, ◌||◌, ◌==◌, eqb, concat, GoError, leaf, errorf,
  message, ErrorKind, Result, ok, err, if◌then◌else◌,
}
use ai_cloud_operator.Base.Effects.{M, return, call, ◌>>=◌}
use ai_cloud_operator.Base.Int.{ℤ, pos}
use ai_cloud_operator.Setup.World.{
  Component, tracker, runnable, reporter, server, Event, read_secret, loaded_key, added, Env,
  Settings,
}
use ai_cloud_operator.Setup.Namespace.{ensure_namespace}

abbrev push : Char → List String → List String
push c [] = String.◌∷◌ c "" ∷ []
push c (s ∷ ss) = String.◌∷◌ c s ∷ ss

-- strings.SplitSeq at each comma.
unfoldable pub split_commas : String → List String
split_commas String.[] = "" ∷ []
split_commas (String.◌∷◌ c s) =
    let rest = split_commas s in if eqb (code c) b',' then "" ∷ rest else push c rest

abbrev plain_error : List String → GoError
plain_error parts = leaf ErrorKind.plain (concat parts)

module _ (env : Env) where
  -- os.Getenv.
  unfoldable pub getenv : String → String
  getenv key = elim (env.lookup_env key) [ none ↦ "" | some value ↦ value ]

  -- EnrollmentSecretWatcher.Current.
  unfoldable pub current_secret : M Event (Result String)
  current_secret = do
    contents ← call read_secret env.read_file
    elim contents [
      | err e ↦ return (err (errorf "reading enrollment secret file: " e ""))
      | ok raw ↦ return (ok (env.trim_space raw))
    ]

  unfoldable pub trimmed_tags : List String → List String
  trimmed_tags [] = []
  trimmed_tags (tag ∷ rest) =
      let others = trimmed_tags rest in
      if env.trim_space tag == "" then others else env.trim_space tag ∷ others

  unfoldable pub operator_tags : Option String → Option (List String)
  operator_tags none = none
  operator_tags (some raw) = some (if raw == "" then [] else trimmed_tags (split_commas raw))

  -- An interval from the environment, or its default.
  unfoldable pub interval : String → ℤ → Result ℤ
  interval key default =
      if getenv key == "" then ok default else elim (env.parse_duration (getenv key)) [
        | err e ↦ err (plain_error ("invalid " ∷ key ∷ ": " ∷ message e ∷ []))
        | ok parsed ↦ ok parsed
      ]

  unfoldable pub is_missing : Bool
  is_missing =
      getenv "CONVEX_BASE_URL" == ""
      || getenv "OPERATOR_NAME" == ""
      || getenv "OPERATOR_EXTERNAL_URL" == ""
      || getenv "POD_NAMESPACE" == ""
      || getenv "WORKLOAD_NAMESPACE" == ""

  abbrev pub fail : {A : Type 0} → GoError → M Event (Result A)
  fail e t = (err e, t)

  -- `mgr.Add`, and what follows it.
  unfoldable pub add_then : {A : Type 0} → Component → M Event (Result A) → M Event (Result A)
  add_then part next = do
    failed ← call (added part) (λ t. env.add t part)
    elim failed [ some e ↦ fail e | none ↦ next ]

  abbrev pub made_then :
      {A : Type 0} → Option GoError → String → M Event (Result A) → M Event (Result A)
  made_then failed before next = elim failed [ some e ↦ fail (errorf before e "") | none ↦ next ]

  abbrev pub listen_addr : String
  listen_addr = if getenv "API_LISTEN_ADDR" == "" then ":8443" else getenv "API_LISTEN_ADDR"

  abbrev pub settings : String → String → ℤ → ℤ → Settings
  settings secret key heartbeat metrics = record {
    base_url = getenv "CONVEX_BASE_URL";
    operator_name = getenv "OPERATOR_NAME";
    external_url = getenv "OPERATOR_EXTERNAL_URL";
    pod_namespace = getenv "POD_NAMESPACE";
    workload_namespace = getenv "WORKLOAD_NAMESPACE";
    enrollment_secret = secret;
    gateway_secret = key;
    listen_addr = listen_addr;
    heartbeat_interval = heartbeat;
    metrics_interval = metrics;
    version = getenv "OPERATOR_VERSION";
    tags = operator_tags (env.lookup_env "OPERATOR_TAGS");
  }

  -- From the metrics interval on.
  unfoldable pub finish_setup : String → String → ℤ → M Event (Result Settings)
  finish_setup secret key heartbeat = elim (interval "METRICS_REPORT_INTERVAL" (pos 300000000000)) [
    | err e ↦ fail e
    | ok metrics ↦ add_then reporter (
        made_then env.new_proxy "building gateway service proxy: " (
          made_then env.new_executor "building pod executor: "
            (add_then server (λ t. (ok (settings secret key heartbeat metrics), t)))))
  ]

  -- From the heartbeat interval on.
  unfoldable pub setup_parts : String → String → M Event (Result Settings)
  setup_parts secret key = elim (interval "HEARTBEAT_INTERVAL" (pos 30000000000)) [
    | err e ↦ fail e
    | ok heartbeat ↦ add_then tracker (
        made_then env.new_collector "building metrics collector: "
          (add_then runnable (finish_setup secret key heartbeat)))
  ]

  -- From the namespace on.
  unfoldable pub setup_namespace : String → String → M Event (Result Settings)
  setup_namespace secret key = do
    failed ← ensure_namespace env (getenv "WORKLOAD_NAMESPACE")
    elim failed [
      | some e ↦ fail (errorf "ensuring workload namespace: " e "")
      | none ↦ setup_parts secret key
    ]

  unfoldable pub setup_key : String → M Event (Result Settings)
  setup_key secret = do
    key ← call loaded_key env.load_key
    elim key [
      | err e ↦ fail (errorf "loading or generating gateway signing key: " e "")
      | ok k ↦ setup_namespace secret k
    ]

  unfoldable pub setup_secret : M Event (Result Settings)
  setup_secret = do
    got ← current_secret
    elim got [
      | err e ↦ fail (errorf "reading initial enrollment secret: " e "")
      | ok secret ↦
          if secret == ""
          then fail (plain_error ("enrollment secret file is empty" ∷ []))
          else setup_key secret
    ]

  unfoldable pub setup_convex_integration : M Event (Result Settings)
  setup_convex_integration =
      if is_missing
      then fail (
          plain_error (
            "CONVEX_BASE_URL, OPERATOR_NAME, OPERATOR_EXTERNAL_URL, "
            ∷ "POD_NAMESPACE, and WORKLOAD_NAMESPACE must all be set" ∷ []))
      else setup_secret
