-- ===== src/Setup/Started.antt =====
-- cmd/main.go: what is true once the operator is put together.
use ai_cloud_operator.Base.{
  String, List, ◌∷◌, none, some, true, false, ◌==◌, eq_iff, GoError, ErrorKind, is_kind, ok,
  Option-cases, Bool-cases, Result-cases, ◌≡◌, ◌≢◌, ◌↔◌, inl, inr, All, arith,
}
use ai_cloud_operator.Base.Int.{ℤ}
use ai_cloud_operator.Setup.World.{
  Event, read_secret, loaded_key, created_namespace, patched_namespace, Env, Settings,
}
use ai_cloud_operator.Setup.Namespace.{pod_security_labels, label_namespace, ensure_namespace}
use ai_cloud_operator.Setup.Integration.{
  getenv, current_secret, is_missing, settings, setup_namespace, setup_key, setup_secret,
  setup_convex_integration,
}
use ai_cloud_operator.Setup.Handing.{all_added, setup_parts-ok}
use ai_cloud_operator.Setup.Tags.{operator_tags-none, operator_tags-nonempty}

module _ (env : Env) where
  -- The namespace exists with the labels, after these calls.
  pub data Ensured (t : List Event) (name : String) : List Event → Type 0 where
    created :
        env.create_namespace t name ≡ none
        → Ensured t name (created_namespace name pod_security_labels ∷ t)
    labelled :
        (e : GoError)
        → env.create_namespace t name ≡ some e
        → is_kind ErrorKind.already_exists e ≡ true
        → env.patch_namespace (created_namespace name pod_security_labels ∷ t) name ≡ none
        → Ensured t name (
            patched_namespace name pod_security_labels
            ∷ created_namespace name pod_security_labels
            ∷ t)

  ensure_namespace-Ensured :
      (name : String) (t s : List Event)
      → ensure_namespace env name t ≡ (none, s)
      → Ensured t name s
  unfolding ensure_namespace label_namespace
  ensure_namespace-Ensured name t s e = elim (Option-cases (env.create_namespace t name)) [
    | inl f ↦
        let calls : s ≡ created_namespace name pod_security_labels ∷ t = ground arith in
        rw calls (created f)
    | inr (x, f) ↦ elim (Bool-cases (is_kind ErrorKind.already_exists x)) [
      | inr g ↦ absurd (ground arith)
      | inl g ↦
          let later = created_namespace name pod_security_labels ∷ t in
          elim (Option-cases (env.patch_namespace later name)) [
            | inr (y, h) ↦ absurd (ground arith)
            | inl h ↦
                let calls : s ≡ patched_namespace name pod_security_labels ∷ later = ground arith in
                rw calls (labelled x f g h)
          ]
    ]
  ]

  -- What has happened, and what holds of the settings.
  pub record Started (t : List Event) (a : Settings) (s : List Event) : Type 0 where
    pub base_url : a.base_url ≢ ""
    pub operator_name : a.operator_name ≢ ""
    pub external_url : a.external_url ≢ ""
    pub pod_namespace : a.pod_namespace ≢ ""
    pub workload_namespace : a.workload_namespace ≢ ""
    pub secret : a.enrollment_secret ≢ ""
    pub key : env.load_key (read_secret ∷ t) ≡ ok a.gateway_secret
    pub ready : List Event
    pub namespace : Ensured (loaded_key ∷ read_secret ∷ t) a.workload_namespace ready
    pub parts : s ≡ all_added ready
    pub unset : (a.tags ≡ none) ↔ (env.lookup_env "OPERATOR_TAGS" ≡ none)
    pub tags : (tags : List String) → a.tags ≡ some tags → All (λ x. x ≢ "") tags

  setup_namespace-ok :
      (secret key : String) (t s : List Event) (a : Settings)
      → setup_namespace env secret key t ≡ (ok a, s)
      → (ready : List Event) × (heartbeat : ℤ) × (metrics : ℤ) × Ensured t
          (getenv env "WORKLOAD_NAMESPACE")
          ready
        × (a ≡ settings env secret key heartbeat metrics)
        × (s ≡ all_added ready)
  unfolding setup_namespace
  setup_namespace-ok secret key t s a e =
      let name = getenv env "WORKLOAD_NAMESPACE" in
      let ready = (ensure_namespace env name t).1 in
      elim (Option-cases (ensure_namespace env name t).0) [
        | inr (x, f) ↦ absurd (ground arith)
        | inl f ↦
            let ensured = ensure_namespace-Ensured name t ready (ground arith) in
            let (heartbeat, metrics, same, calls) =
              setup_parts-ok env secret key ready s a (ground arith) in
            (ready, heartbeat, metrics, ensured, same, calls)
      ]

  is_missing-false :
      is_missing env ≡ false
      → (getenv env "CONVEX_BASE_URL" ≢ "")
        × (getenv env "OPERATOR_NAME" ≢ "")
        × (getenv env "OPERATOR_EXTERNAL_URL" ≢ "")
        × (getenv env "POD_NAMESPACE" ≢ "")
        × (getenv env "WORKLOAD_NAMESPACE" ≢ "")
  unfolding is_missing
  is_missing-false e = (
    λ x. ground (arith, eq_iff (getenv env "CONVEX_BASE_URL") ""),
    λ x. ground (arith, eq_iff (getenv env "OPERATOR_NAME") ""),
    λ x. ground (arith, eq_iff (getenv env "OPERATOR_EXTERNAL_URL") ""),
    λ x. ground (arith, eq_iff (getenv env "POD_NAMESPACE") ""),
    λ x. ground (arith, eq_iff (getenv env "WORKLOAD_NAMESPACE") ""),
  )

  setup_key-ok :
      (secret : String) (t s : List Event) (a : Settings)
      → setup_key env secret t ≡ (ok a, s)
      → (key : String) × (env.load_key t ≡ ok key)
        × (setup_namespace env secret key (loaded_key ∷ t) ≡ (ok a, s))
  unfolding setup_key
  setup_key-ok secret t s a e = elim (Result-cases (env.load_key t)) [
    | inr (x, f) ↦ absurd (ground arith)
    | inl (key, f) ↦ (key, f, rw (setup_key, f) at e)
  ]

  setup_secret-ok :
      (t s : List Event) (a : Settings)
      → setup_secret env t ≡ (ok a, s)
      → (secret : String) × (secret ≢ "") × (setup_key env secret (read_secret ∷ t) ≡ (ok a, s))
  unfolding setup_secret current_secret
  setup_secret-ok t s a e = elim (Result-cases (env.read_file t)) [
    | inr (x, f) ↦ absurd (ground arith)
    | inl (raw, f) ↦ elim (Bool-cases (env.trim_space raw == "")) [
      | inl g ↦ absurd (ground arith)
      | inr g ↦ (
        env.trim_space raw,
        λ empty. ground (arith, eq_iff (env.trim_space raw) ""),
        ground arith,
      )
    ]
  ]

  -- Where the operator is put together without an error, all five required variables are set, the
  -- enrollment secret is not empty, the gateway has its signing key and the namespace of the
  -- workloads exists with its labels, all before the first part is handed to the manager; the four
  -- parts then follow in one order; and tags are reported exactly where OPERATOR_TAGS is set, each
  -- of them not empty.
  pub setup_convex_integration-Started :
      (t s : List Event) (a : Settings) → setup_convex_integration env t ≡ (ok a, s) → Started t a s
  unfolding setup_convex_integration
  setup_convex_integration-Started t s a e = elim (Bool-cases (is_missing env)) [
    | inl f ↦ absurd (ground arith)
    | inr f ↦
        let (base, name, url, pod, workloads) = is_missing-false f in
        let (secret, filled, keyed) =
          setup_secret-ok t s a (rw (setup_convex_integration, f) at e) in
        let (key, loaded, spaced) = setup_key-ok secret (read_secret ∷ t) s a keyed in
        let (ready, heartbeat, metrics, ensured, same, calls) =
          setup_namespace-ok secret key (loaded_key ∷ read_secret ∷ t) s a spaced in
        rw same (record {
          base_url = base;
          operator_name = name;
          external_url = url;
          pod_namespace = pod;
          workload_namespace = workloads;
          secret = filled;
          key = loaded;
          ready = ready;
          namespace = ensured;
          parts = calls;
          unset = operator_tags-none env (env.lookup_env "OPERATOR_TAGS");
          tags = operator_tags-nonempty env (env.lookup_env "OPERATOR_TAGS");
        })
  ]
