-- ===== src/Operator/Sessions.antt =====
-- internal/convexclient/runnable.go: which tokens the operator runs with after `loadOrRegister`,
-- and what a changed enrollment secret does.
use ai_cloud_operator.Base.{
  String, List, ◌∷◌, Option, none, some, true, false, ◌||◌, ◌==◌, eq_iff, eq_refl, ◌≡◌, refl, inl,
  inr, GoError, Result, ok, err, Bool-cases, Option-cases, Result-cases, arith,
}
use ai_cloud_operator.Operator.World.{
  Env, Event, Tokens, ClaimableWorkload, PendingOperation, sent_heartbeat, registered,
  loaded_tokens, saved_tokens, read_enrollment,
}
use ai_cloud_operator.Operator.Registration.{
  Session, is_fresh, stamped, register, reuse_or_register, load_or_register,
  check_enrollment_secret,
}

module _ (env : Env) where
  -- The tokens were issued to an operator with this catalog, version and tags.
  pub record IsFresh (k : Tokens) : Type 0 where
    pub catalog : k.catalog_hash ≡ env.catalog_hash
    pub version : k.operator_version ≡ env.version
    pub tags : k.tags_fingerprint ≡ env.tags_fingerprint

  is_fresh-IsFresh : (k : Tokens) → is_fresh env k ≡ true → IsFresh k
  unfolding is_fresh
  is_fresh-IsFresh k e = record {
    catalog = ground (arith, eq_iff k.catalog_hash env.catalog_hash);
    version = ground (arith, eq_iff k.operator_version env.version);
    tags = ground (arith, eq_iff k.tags_fingerprint env.tags_fingerprint);
  }

  -- The ways in which a registration can go.
  pub data RegisterRun (s : Session) (t : List Event)
      : (Session × Option GoError) × List Event → Type 0 where
    refused :
        {r : (Session × Option GoError) × List Event} (e : GoError)
        → env.register t s.secret ≡ err e
        → r ≡ ((s, some e), registered s.secret ∷ t)
        → RegisterRun s t r
    unsaved :
        {r : (Session × Option GoError) × List Event} (k : Tokens) (e : GoError)
        → env.register t s.secret ≡ ok k
        → env.save_tokens (registered s.secret ∷ t) (stamped env k) ≡ some e
        → r ≡ ((s, some e), saved_tokens (stamped env k) ∷ registered s.secret ∷ t)
        → RegisterRun s t r
    renewed :
        {r : (Session × Option GoError) × List Event} (k : Tokens)
        → env.register t s.secret ≡ ok k
        → env.save_tokens (registered s.secret ∷ t) (stamped env k) ≡ none
        → r ≡ (
          (record s { tokens = stamped env k }, none),
          saved_tokens (stamped env k) ∷ registered s.secret ∷ t,
        )
        → RegisterRun s t r

  pub register-RegisterRun : (s : Session) (t : List Event) → RegisterRun s t (register env s t)
  unfolding register
  register-RegisterRun s t = elim (Result-cases (env.register t s.secret)) [
    | inr (e, f) ↦ refused e f (ground arith)
    | inl (k, f) ↦ elim (Option-cases (env.save_tokens (registered s.secret ∷ t) (stamped env k))) [
      | inl g ↦ renewed k f g (ground arith)
      | inr (e, g) ↦ unsaved k e f g (ground arith)
    ]
  ]

  -- Why stored tokens are not reused, with the history at which the registration starts.
  pub data Unusable (t : List Event) : List Event → Type 0 where
    unreadable :
        {t' : List Event} (e : GoError)
        → env.load_tokens t ≡ err e
        → t' ≡ loaded_tokens ∷ t
        → Unusable t t'
    missing :
        {t' : List Event} → env.load_tokens t ≡ ok none → t' ≡ loaded_tokens ∷ t → Unusable t t'
    rejected :
        {t' : List Event} (k : Tokens) (e : GoError)
        → env.load_tokens t ≡ ok (some k)
        → env.heartbeat (loaded_tokens ∷ t) k.heartbeat_token none none ≡ err e
        → t' ≡ sent_heartbeat k.heartbeat_token none none ∷ loaded_tokens ∷ t
        → Unusable t t'
    outdated :
        {t' : List Event} (k : Tokens)
        → env.load_tokens t ≡ ok (some k)
        → is_fresh env k ≡ false
        → t' ≡ sent_heartbeat k.heartbeat_token none none ∷ loaded_tokens ∷ t
        → Unusable t t'

  -- The ways in which a start of the operator can go.
  pub data Startup (s : Session) (t : List Event)
      : (Session × Option GoError) × List Event → Type 0 where
    reused :
        {r : (Session × Option GoError) × List Event} (k : Tokens)
        (answer : List ClaimableWorkload × List PendingOperation)
        → env.load_tokens t ≡ ok (some k)
        → env.heartbeat (loaded_tokens ∷ t) k.heartbeat_token none none ≡ ok answer
        → IsFresh k
        → r ≡ (
          (record s { tokens = k }, none),
          sent_heartbeat k.heartbeat_token none none ∷ loaded_tokens ∷ t,
        )
        → Startup s t r
    anew :
        {r : (Session × Option GoError) × List Event} (t' : List Event)
        → Unusable t t'
        → RegisterRun s t' r
        → Startup s t r

  reuse_or_register-Startup :
      (s : Session) (t : List Event) (k : Tokens)
      → env.load_tokens t ≡ ok (some k)
      → Startup s t (reuse_or_register env s k (loaded_tokens ∷ t))
  unfolding reuse_or_register
  reuse_or_register-Startup s t k f = elim (Result-cases answer) [
    | inr (e, g) ↦ anew after (rejected k e f g refl) (
        let same : reuse_or_register env s k (loaded_tokens ∷ t) ≡ register env s after =
          unfold_rejected e g in
        rw same (register-RegisterRun s after))
    | inl (a, g) ↦ elim (Bool-cases (is_fresh env k)) [
      | inl h ↦ reused k a f g (is_fresh-IsFresh k h) (unfold_reused a g h)
      | inr h ↦ anew after (outdated k f h refl) (
          let same : reuse_or_register env s k (loaded_tokens ∷ t) ≡ register env s after =
            unfold_outdated a g h in
          rw same (register-RegisterRun s after))
    ]
  ]
    where
      answer : Result (List ClaimableWorkload × List PendingOperation)
      answer = env.heartbeat (loaded_tokens ∷ t) k.heartbeat_token none none

      after : List Event
      after = sent_heartbeat k.heartbeat_token none none ∷ loaded_tokens ∷ t

      unfold_rejected :
          (e : GoError)
          → answer ≡ err e
          → reuse_or_register env s k (loaded_tokens ∷ t) ≡ register env s after
      unfold_rejected e g = ground arith

      unfold_outdated :
          (a : List ClaimableWorkload × List PendingOperation)
          → answer ≡ ok a
          → is_fresh env k ≡ false
          → reuse_or_register env s k (loaded_tokens ∷ t) ≡ register env s after
      unfold_outdated a g h = ground arith

      unfold_reused :
          (a : List ClaimableWorkload × List PendingOperation)
          → answer ≡ ok a
          → is_fresh env k ≡ true
          → reuse_or_register env s k (loaded_tokens ∷ t) ≡ ((record s { tokens = k }, none), after)
      unfold_reused a g h = ground arith

  -- At its start the operator goes on with stored tokens only where Convex has just taken them and
  -- they were issued for its present catalog, version and tags; in each other case it registers,
  -- and new tokens count only once they are saved.
  pub load_or_register-Startup :
      (s : Session) (t : List Event) → Startup s t (load_or_register env s t)
  unfolding load_or_register
  load_or_register-Startup s t = elim (Result-cases (env.load_tokens t)) [
    | inr (e, f) ↦ anew (loaded_tokens ∷ t) (unreadable e f refl) (
        let same : load_or_register env s t ≡ register env s (loaded_tokens ∷ t) = ground arith in
        rw same (register-RegisterRun s (loaded_tokens ∷ t)))
    | inl (none, f) ↦ anew (loaded_tokens ∷ t) (missing f refl) (
        let same : load_or_register env s t ≡ register env s (loaded_tokens ∷ t) = ground arith in
        rw same (register-RegisterRun s (loaded_tokens ∷ t)))
    | inl (some k, f) ↦
        let same : load_or_register env s t ≡ reuse_or_register env s k (loaded_tokens ∷ t) =
          ground arith in
        rw same (reuse_or_register-Startup s t k f)
  ]

  RegisterRun-secret :
      {s : Session} {t : List Event} {r : (Session × Option GoError) × List Event}
      → RegisterRun s t r
      → r.0.0.secret ≡ s.secret
  RegisterRun-secret (refused e f same) = rw same refl
  RegisterRun-secret (unsaved k e f g same) = rw same refl
  RegisterRun-secret (renewed k f g same) = rw same refl

  check_secret :
      (s : Session) (t : List Event) (current : String)
      → env.enrollment t ≡ ok current
      → (current == "" || (check_enrollment_secret env s t).0.secret == current) ≡ true
  unfolding check_enrollment_secret
  check_secret s t current f =
      let kept =
        RegisterRun-secret
          (register-RegisterRun (record s { secret = current }) (read_enrollment ∷ t)) in
      ground (arith, eq_refl current, eq_iff current s.secret, kept)

  -- A secret is tried once: where a second look at the mounted secret finds the same text, it
  -- changes nothing and registers nothing, whether or not the first registration has succeeded.
  pub check_enrollment_secret_once :
      (s : Session) (t t' : List Event) (current : String)
      → env.enrollment t ≡ ok current
      → env.enrollment t' ≡ ok current
      → let after = (check_enrollment_secret env s t).0 in
        check_enrollment_secret env after t' ≡ (after, read_enrollment ∷ t')
  unfolding check_enrollment_secret
  check_enrollment_secret_once s t t' current f g = settled _ (check_secret s t current f)
    where
      settled :
          (after : Session)
          → (current == "" || after.secret == current) ≡ true
          → check_enrollment_secret env after t' ≡ (after, read_enrollment ∷ t')
      settled after h = ground (arith, eq_iff current after.secret, eq_iff after.secret current)
