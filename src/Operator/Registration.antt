-- ===== src/Operator/Registration.antt =====
-- internal/convexclient/runnable.go: `register`, `loadOrRegister`, `heartbeatOnce` and
-- `checkEnrollmentSecret`.
use ai_cloud_operator.Base.{
  String, List, Option, none, some, Bool, true, false, ◌&&◌, ◌||◌, ◌==◌, GoError, leaf, ErrorKind,
  Result, ok, err, if◌then◌else◌,
}
use ai_cloud_operator.Base.Effects.{M, return, call, ◌>>=◌, ◌>>◌}
use ai_cloud_operator.Capacity.Tracker.{Snapshot}
use ai_cloud_operator.Operator.World.{
  Env, Event, Tokens, UsageSnapshot, ClaimableWorkload, PendingOperation, sent_heartbeat,
  registered, loaded_tokens, saved_tokens, read_capacity, read_usage, read_enrollment,
}
use ai_cloud_operator.Operator.Claims.{process_claimable, process_pending_operations}

-- What the Runnable and its Client keep between calls: the tokens and the enrollment secret.
pub record Session : Type 0 where
  pub tokens : Tokens
  pub secret : String

-- `err == ErrUnauthorized`: a wrapped error is another one.
unfoldable pub is_unauthorized : GoError → Bool
is_unauthorized (leaf ErrorKind.unauthorized s) = true
is_unauthorized _ = false

module _ (env : Env) where
  -- The three fingerprints are those of the running operator.
  unfoldable pub is_fresh : Tokens → Bool
  is_fresh k =
      k.catalog_hash == env.catalog_hash
      && k.operator_version == env.version
      && k.tags_fingerprint == env.tags_fingerprint

  abbrev pub stamped : Tokens → Tokens
  stamped k = record k {
    catalog_hash = env.catalog_hash;
    operator_version = env.version;
    tags_fingerprint = env.tags_fingerprint;
  }

  unfoldable pub register : Session → M Event (Session × Option GoError)
  register s = do
    issued ← call (registered s.secret) (λ t. env.register t s.secret)
    elim issued [
      | err e ↦ return (s, some e)
      | ok k ↦ do
        failed ← call (saved_tokens (stamped k)) (λ t. env.save_tokens t (stamped k))
        elim failed [
          | some e ↦ return (s, some e)
          | none ↦ return (record s { tokens = stamped k }, none)
        ]
    ]

  -- From the loaded tokens to the end.
  unfoldable pub reuse_or_register : Session → Tokens → M Event (Session × Option GoError)
  reuse_or_register s k = do
    beat ←
        call (sent_heartbeat k.heartbeat_token none none)
          (λ t. env.heartbeat t k.heartbeat_token none none)
    elim beat [
      | err _ ↦ register s
      | ok _ ↦ if is_fresh k then return (record s { tokens = k }, none) else register s
    ]

  unfoldable pub load_or_register : Session → M Event (Session × Option GoError)
  load_or_register s = do
    loaded ← call loaded_tokens env.load_tokens
    elim loaded [ err _ ↦ register s | ok none ↦ register s | ok (some k) ↦ reuse_or_register s k ]

  unfoldable pub read_snapshot : M Event (Option Snapshot)
  read_snapshot =
      if env.has_capacity
      then (do
        got ← call read_capacity env.capacity
        elim got [ ok snap ↦ return (some snap) | err _ ↦ return none ])
      else return none

  unfoldable pub read_live : M Event (Option UsageSnapshot)
  read_live =
      if env.has_usage
      then (do
        got ← call read_usage env.usage
        elim got [ ok live ↦ return (some live) | err _ ↦ return none ])
      else return none

  -- What follows a heartbeat's answer.
  unfoldable pub after_heartbeat :
      Session
      → Option Snapshot
      → Result (List ClaimableWorkload × List PendingOperation)
      → M Event Session
  after_heartbeat s snap (err e) =
      if is_unauthorized e then (do r ← register s; return r.0) else return s
  after_heartbeat s snap (ok (claimable, pending)) = do
    left ← process_claimable env s.tokens.heartbeat_token claimable snap
    process_pending_operations env s.tokens.heartbeat_token pending
    return s

  unfoldable pub heartbeat_once : Session → M Event Session
  heartbeat_once s = do
    snap ← read_snapshot
    live ← read_live
    answer ←
        call (sent_heartbeat s.tokens.heartbeat_token snap live)
          (λ t. env.heartbeat t s.tokens.heartbeat_token snap live)
    after_heartbeat s snap answer

  -- The client takes over the new secret before the registration is tried.
  unfoldable pub check_enrollment_secret : Session → M Event Session
  check_enrollment_secret s = do
    read ← call read_enrollment env.enrollment
    elim read [
      | err _ ↦ return s
      | ok current ↦
          if current == "" || current == s.secret
          then return s
          else (do r ← register (record s { secret = current }); return r.0)
    ]
