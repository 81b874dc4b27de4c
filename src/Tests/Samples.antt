-- ===== src/Tests/Samples.antt =====
-- Concrete stand-ins for the libraries and the API server, for the tests.
use mathlib.Core.Logic.{ite}
use ai_cloud_operator.Base.{
  String, List, [], ◌∷◌, Option, none, some, Bool, true, false, ◌==◌, ◌||◌, ◌*◌, leaf, ErrorKind,
  ok, err, ◌≡◌, ◌≢◌, arith,
}
use ai_cloud_operator.Base.Int.{pos}
use ai_cloud_operator.Kube.{Pod, PodCondition, Deployment}
use ai_cloud_operator.Workload.{Workload, Phase, Condition, ConditionType, ConditionType-discrete}
use ai_cloud_operator.Catalog.Types.{Library}
use ai_cloud_operator.Controller.World.{Env, ConditionLaws}

-- Every quantity is 100.
abbrev pub library : Library
library = record {
  quote = λ s. s;
  show_float = λ x. "x";
  show_int = λ n. "n";
  float_of_int = λ n. n;
  int32_of_float = λ x. x;
  int32_of_int = λ n. n;
  match_string = λ pattern s. ok true;
  json_decode = λ s. ok [];
  json_encode = λ m. ok "json";
  milli_value = λ q. pos 100;
  byte_value = λ q. pos 100;
}

unfoldable pub find_condition : List Condition → ConditionType → Option Condition
find_condition [] k = none
find_condition (c ∷ cs) k = ite (ConditionType-discrete c.kind k) (some c) (find_condition cs k)

unfoldable pub set_condition : List Condition → Condition → List Condition
set_condition [] c = c ∷ []
set_condition (x ∷ xs) c =
    ite (ConditionType-discrete x.kind c.kind) (c ∷ xs) (x ∷ set_condition xs c)

find-set_condition :
    (cs : List Condition) (c : Condition) → find_condition (set_condition cs c) c.kind ≡ some c
unfolding find_condition set_condition
find-set_condition [] c = ground arith
find-set_condition (x ∷ xs) c = ground (arith, find-set_condition xs c)

find-set_condition_ne :
    (cs : List Condition) (c : Condition) (k : ConditionType)
    → c.kind ≢ k
    → find_condition (set_condition cs c) k ≡ find_condition cs k
unfolding find_condition set_condition
find-set_condition_ne [] c k ne = ground arith
find-set_condition_ne (x ∷ xs) c k ne = ground (arith, find-set_condition_ne xs c k ne)

set_condition-found :
    (cs : List Condition) (c : Condition)
    → find_condition cs c.kind ≡ some c
    → set_condition cs c ≡ cs
unfolding find_condition set_condition
set_condition-found [] c h = absurd (ground arith)
set_condition-found (x ∷ xs) c h = ground (arith, set_condition-found xs c)

unfoldable pub contains : List String → String → Bool
contains [] s = false
contains (x ∷ xs) s = x == s || contains xs s

-- A pod that could not be placed since Go's zero time.
abbrev pub stuck_condition : PodCondition
stuck_condition = record {
  kind = "PodScheduled";
  status = "False";
  reason = "Unschedulable";
  message = "0/3 nodes are available";
  last_transition_time = 0;
}

abbrev pub stuck_pod : Pod
stuck_pod = record {
  name = "web-1";
  namespace = "tenant";
  labels = [];
  node_name = "";
  phase = "Pending";
  conditions = stuck_condition ∷ [];
}

abbrev pub deployment : Deployment
deployment = record { replicas = some (pos 1); containers = []; ready_replicas = pos 1 }

abbrev pub workload : Workload
workload = record {
  name = "web";
  generate_name = "";
  namespace = "tenant";
  uid = "u1";
  generation = 2;
  labels = [];
  finalizers = [];
  deleting = false;
  spec = record {
    template_name = "";
    image = "";
    replicas = none;
    container_port = pos 0;
    env = [];
    subdomain = "";
    user_id = "";
    config = none;
    suspended = false;
    last_redeployed_at = "";
  };
  status = record {
    phase = Phase.deploying;
    ready_replicas = pos 0;
    observed_generation = 1;
    conditions = [];
  };
}

-- One second before the hour, Convex and the API server take everything; the one Workload has a
-- pod that cannot be scheduled.
abbrev pub env : Env
env = record {
  lib = library;
  convex_attached = true;
  now = λ t. 3599 * 1000000000;
  get_workload = λ t namespace name. err (leaf ErrorKind.not_found "not found");
  update_workload = λ t w. ok w;
  update_status = λ t w. ok w;
  delete_workload = λ t w. none;
  list_pods = λ t namespace selector. ok (stuck_pod ∷ []);
  get_deployment = λ t namespace name. ok deployment;
  write_deployment = λ t d. some (leaf ErrorKind.conflict "modified");
  write_service = λ t s. none;
  upsert_workload = λ t info. none;
  report_lifecycle = λ t name id phase reason retryable. none;
  remove_workload = λ t name namespace. none;
  find_condition = find_condition;
  set_condition = set_condition;
  contains_finalizer = contains;
  add_finalizer = λ fs f. f ∷ fs;
  remove_finalizer = λ fs f. [];
}

pub laws : ConditionLaws env
laws = record {
  find-set = find-set_condition;
  find-set_ne = find-set_condition_ne;
  set-found = set_condition-found;
}
