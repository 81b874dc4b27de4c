-- ===== src/Operator/World.antt =====
-- internal/convexclient and internal/provisioning: what the operator asks of the Kubernetes API
-- server, of Convex and of its own stores outside the reconciler.
use ai_cloud_operator.Base.{ℕ, String, List, Option, Bool, GoError, Result}
use ai_cloud_operator.Base.Int.{ℤ}
use ai_cloud_operator.Workload.{Workload}
use ai_cloud_operator.Catalog.Types.{Params, Library}
use ai_cloud_operator.Capacity.Tracker.{Snapshot}

-- tokenstore.Tokens.
pub record Tokens : Type 0 where
  pub heartbeat_token : String
  pub deploy_token : String
  pub catalog_hash : String
  pub operator_version : String
  pub tags_fingerprint : String

-- metrics.UsageSnapshot.
pub record UsageSnapshot : Type 0 where
  pub cluster_used_milli_cpu : ℤ
  pub cluster_used_memory_bytes : ℤ
  pub managed_used_milli_cpu : ℤ
  pub managed_used_memory_bytes : ℤ
  pub nodes_reporting : ℕ
  pub nodes_total : ℕ

pub record ClaimableWorkload : Type 0 where
  pub workload_id : String
  pub template_id : String

pub record PendingOperation : Type 0 where
  pub workload_id : String
  pub operation : String

pub record ClaimedWorkload : Type 0 where
  pub workload_id : String
  pub config : Option Params
  pub subdomain : String
  pub template_id : String
  pub template_version : String
  pub user_id : String

pub record ClaimedOperation : Type 0 where
  pub operation : String
  pub name : String
  pub namespace : String
  pub config : Option Params
  pub template_id : String
  pub template_version : String

pub data Event : Type 0 where
  got_workload : (name : String) → Event
  created_workload updated_workload : Workload → Event
  deleted_workload : (name : String) → Event
  claimed_workload claimed_operation : (token workload_id : String) → Event
  -- A report of the phase "failed", the only one that these packages send.
  reported_failed : (token name workload_id reason : String) → (retryable : Bool) → Event
  sent_heartbeat : (token : String) → Option Snapshot → Option UsageSnapshot → Event
  registered : (secret : String) → Event
  loaded_tokens : Event
  saved_tokens : Tokens → Event
  read_capacity read_usage read_enrollment : Event

-- An answer is a function of all calls before it, newest first. An absent part of Runnable's
-- configuration (a nil pointer) is a `false`.
pub record Env : Type 0 where
  pub lib : Library
  pub namespace : String
  pub has_creator : Bool
  pub has_destroyer : Bool
  pub has_capacity : Bool
  pub has_usage : Bool
  -- catalog.Hash(), Client.Version() and Client.TagsFingerprint().
  pub catalog_hash : String
  pub version : String
  pub tags_fingerprint : String
  -- time.Now() in UTC as RFC 3339 text.
  pub now : List Event → String
  pub get_workload : List Event → String → Result Workload
  pub create_workload : List Event → Workload → Result Workload
  pub update_workload : List Event → Workload → Result Workload
  pub delete_workload : List Event → String → Option GoError
  -- `ok none` is the nil claim of a 404 or a 409.
  pub claim_workload : List Event → String → String → Result (Option ClaimedWorkload)
  pub claim_operation : List Event → String → String → Result (Option ClaimedOperation)
  pub report_failed : List Event → String → String → String → String → Bool → Option GoError
  pub heartbeat :
      List Event
      → String
      → Option Snapshot
      → Option UsageSnapshot
      → Result (List ClaimableWorkload × List PendingOperation)
  pub register : List Event → String → Result Tokens
  -- `ok none` where no tokens are stored.
  pub load_tokens : List Event → Result (Option Tokens)
  pub save_tokens : List Event → Tokens → Option GoError
  pub capacity : List Event → Result Snapshot
  pub usage : List Event → Result UsageSnapshot
  pub enrollment : List Event → Result String
