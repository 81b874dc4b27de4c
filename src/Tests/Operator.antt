-- ===== src/Tests/Operator.antt =====
-- The claim loop at concrete inputs.
use ai_cloud_operator.Base.{
  ℕ, String, List, [], ◌∷◌, none, some, true, GoError, leaf, ErrorKind, ok, err, ◌≡◌, refl, All,
  lookup, arith,
}
use ai_cloud_operator.Base.Int.{pos, pos_part, add64}
use ai_cloud_operator.Operator.World.{
  Env, Event, ClaimableWorkload, ClaimedWorkload, ClaimedOperation, PendingOperation,
  read_enrollment,
}
use ai_cloud_operator.Capacity.Tracker.{empty_snapshot}
use ai_cloud_operator.Operator.Provisioning.{create}
use ai_cloud_operator.Operator.Claims.{claim_one, process_claimable, process_pending_operations}
use ai_cloud_operator.Operator.ClaimRuns.{CreateRun, ClaimRun, create-CreateRun, claim_one-ClaimRun}
use ai_cloud_operator.Operator.Registration.{Session, load_or_register, check_enrollment_secret}
use ai_cloud_operator.Operator.Sessions.{
  Startup, load_or_register-Startup, check_enrollment_secret_once,
}
use ai_cloud_operator.Operator.Operations.{IsDutiful}
use ai_cloud_operator.Operator.PendingTicks.{process_pending_operations-IsDutiful}
use ai_cloud_operator.Operator.Headroom.{Within, process_claimable-Within}
use ai_cloud_operator.Capacity.Room.{reading, InRange}
use ai_cloud_operator.Catalog.Template.{
  Template, estimated_resources, sum_requests, milli_cpu, memory_bytes,
}
use ai_cloud_operator.Catalog.Registry.{templates, get}
use ai_cloud_operator.Catalog.Nginx.{nginx, build_nginx}
use ai_cloud_operator.Catalog.Desktop.{
  firefox, chrome, webtop, build_firefox, build_chrome, build_webtop, browser_container,
}
use ai_cloud_operator.Catalog.Browser.{browser_resources}
use ai_cloud_operator.Catalog.Params.{param_string, param_int32, get_value}
use ai_cloud_operator.Catalog.Entries.{find_template-All}
use ai_cloud_operator.Tests.Samples.{library, workload}

abbrev claimed : ClaimedWorkload
claimed = record {
  workload_id = "w1";
  config = some [];
  subdomain = "";
  template_id = "nginx";
  template_version = "1.0.0";
  user_id = "u1";
}

abbrev offered : ClaimableWorkload
offered = record { workload_id = "w1"; template_id = "nginx" }

abbrev denied : GoError
denied = leaf ErrorKind.plain "denied"

abbrev pub env : Env
env = record {
  lib = library;
  namespace = "tenant";
  has_creator = true;
  has_destroyer = true;
  has_capacity = true;
  has_usage = true;
  catalog_hash = "hash";
  version = "v1";
  tags_fingerprint = "tags";
  now = λ t. "2026-01-01T00:00:00Z";
  get_workload = λ t name. ok workload;
  create_workload = λ t w. ok w;
  update_workload = λ t w. ok w;
  delete_workload = λ t name. none;
  claim_workload = λ t token id. ok (some claimed);
  claim_operation = λ t token id. ok none;
  report_failed = λ t token name id reason retryable. none;
  heartbeat = λ t token snap usage. ok ([], []);
  register = λ t secret. err denied;
  load_tokens = λ t. ok none;
  save_tokens = λ t tokens. none;
  capacity = λ t. ok empty_snapshot;
  usage = λ t. err denied;
  enrollment = λ t. ok "secret";
}

abbrev items : List ClaimableWorkload
items = offered ∷ offered ∷ []

create-CreateRun_example : CreateRun env claimed [] (create env "w1" "nginx" "u1" "" (some []) [])
create-CreateRun_example = create-CreateRun env claimed []

claim_one-ClaimRun_example :
    ClaimRun env "token" offered none [] (claim_one env "token" offered none [])
claim_one-ClaimRun_example = claim_one-ClaimRun env "token" offered none []

abbrev pub session : Session
session = record {
  tokens = record {
    heartbeat_token = "";
    deploy_token = "";
    catalog_hash = "";
    operator_version = "";
    tags_fingerprint = "";
  };
  secret = "old";
}

load_or_register-Startup_example : Startup env session [] (load_or_register env session [])
load_or_register-Startup_example = load_or_register-Startup env session []

-- The mounted secret is a new one, and Convex refuses to register: the session has the new secret
-- and the old tokens, and the second look calls nobody.
check_enrollment_secret_once_example :
    check_enrollment_secret env (check_enrollment_secret env session []).0 []
    ≡ ((check_enrollment_secret env session []).0, read_enrollment ∷ [])
check_enrollment_secret_once_example =
    check_enrollment_secret_once env session [] [] "secret" refl refl

abbrev destroying : ClaimedOperation
destroying = record {
  operation = "destroy";
  name = "web";
  namespace = "tenant";
  config = none;
  template_id = "nginx";
  template_version = "1.0.0";
}

abbrev destroying_env : Env
destroying_env = record env { claim_operation = λ t token id. ok (some destroying) }

abbrev pending : List PendingOperation
pending = record { workload_id = "w1"; operation = "destroy" } ∷ []

process_pending_operations-IsDutiful_example :
    IsDutiful destroying_env (process_pending_operations destroying_env "token" pending []).1
process_pending_operations-IsDutiful_example =
    process_pending_operations-IsDutiful destroying_env "token" pending [] tt

abbrev cpu_of : Template → ℕ
cpu_of tmpl = pos_part (estimated_resources library tmpl).0

abbrev mem_of : Template → ℕ
mem_of tmpl = pos_part (estimated_resources library tmpl).1

abbrev IsEstimated : Template → Type 0
IsEstimated tmpl = estimated_resources library tmpl ≡ (pos (cpu_of tmpl), pos (mem_of tmpl))

estimated : All IsEstimated (templates library)
unfolding templates estimated_resources sum_requests milli_cpu memory_bytes add64 nginx firefox
    chrome webtop build_nginx build_firefox build_chrome build_webtop param_string param_int32
    get_value lookup browser_container browser_resources
estimated = (refl, (refl, (refl, (refl, tt))))

estimates : (id : String) (tmpl : Template) → get library id ≡ some tmpl → IsEstimated tmpl
unfolding get
estimates id tmpl e = find_template-All IsEstimated id (templates library) tmpl estimated e

honest :
    (t : List Event) (token : String) (c : ClaimedWorkload)
    → env.claim_workload t token "w1" ≡ ok (some c)
    → c.template_id ≡ "nginx"
honest t token c e = cc

room : Within 4000 4000 (some (reading 4000 4000 100 100))
room = record {
  used_cpu = 100;
  used_mem = 100;
  figures = refl;
  cpu_left = ground arith;
  mem_left = ground arith;
}

InRange-capacity : InRange 4000
InRange-capacity = ground arith

process_claimable-Within_example :
    Within 4000 4000 (process_claimable env "token" items (some (reading 4000 4000 100 100)) []).0
process_claimable-Within_example =
    process_claimable-Within env cpu_of mem_of estimates 4000 4000 InRange-capacity InRange-capacity
      "token" items (some (reading 4000 4000 100 100)) [] (honest, (honest, tt)) room
