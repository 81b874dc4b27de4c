-- ===== src/Tests/Assembly.antt =====
-- The assembled operator at concrete inputs.
use ai_cloud_operator.Base.{
  suc, String, List, [], ◌∷◌, none, some, GoError, leaf, ErrorKind, ErrorKind-discrete, is_kind,
  Result, ok, err, ◌≡◌, refl, sym, ap, ◌∙◌, inl, inr, ◌↔◌, arith,
}
use ai_cloud_operator.Operator.World
use ai_cloud_operator.Operator.World.{
  Tokens, ClaimableWorkload, ClaimedWorkload, sent_heartbeat, loaded_tokens, PendingOperation,
}
use ai_cloud_operator.Operator.Registration.{Session, register, load_or_register, heartbeat_once}
use ai_cloud_operator.Operator.Serving.{start}
use ai_cloud_operator.Client.Http
use ai_cloud_operator.Client.Calls
use ai_cloud_operator.TokenStore
use ai_cloud_operator.Assembly.Parts.{Parts, requests, store_calls, assembled}
use ai_cloud_operator.Assembly.Backing.{AllBacked, start-AllBacked}
use ai_cloud_operator.Assembly.Renewal.{registrations, IsRejected, heartbeat_once-registrations}
use ai_cloud_operator.Assembly.Restart.{new_tokens, IsKept, load_or_register-restart}
use ai_cloud_operator.Tests.Samples.{library, workload}
use ai_cloud_operator.Tests.Client
use ai_cloud_operator.Tests.Setup

abbrev denied : GoError
denied = leaf ErrorKind.plain "denied"

abbrev claimed : ClaimedWorkload
claimed = record {
  workload_id = "w1";
  config = some [];
  subdomain = "";
  template_id = "nginx";
  template_version = "1.0.0";
  user_id = "u1";
}

-- Convex takes every request, and each heartbeat brings one offer.
abbrev pub http : Http.Env
http = record {
  lib = library;
  config = record {
    base_url = "https://convex.example";
    operator_name = "op";
    external_url = "https://op.example";
    metadata = [];
    version = "v1";
    tags = none;
  };
  show_status = λ n. "200";
  encode = λ body. ok "{}";
  url_fault = λ url. none;
  send = λ t q. ok (record { status = 200; body = "{}" });
  decode_register = λ raw. ok (record { heartbeat_token = "h"; deploy_token = "d" });
  decode_heartbeat = λ raw. ok (record {
    claimable = record { workload_id = "w1"; template_id = "nginx" } ∷ [];
    pending_operations = [];
  });
  decode_claimed_workload = λ raw. ok claimed;
  decode_claimed_operation = λ raw. err denied;
  decode_verified = λ raw. err denied;
}

-- The Secret as it was written last.
abbrev written : List TokenStore.Event → Result TokenStore.Secret
written [] = err (leaf ErrorKind.not_found "not found")
written (TokenStore.got_secret ∷ t) = written t
written (TokenStore.created_secret secret ∷ t) = ok secret
written (TokenStore.updated_secret secret ∷ t) = ok secret

abbrev parts : Parts
parts = record {
  http = http;
  store = record {
    get_secret = written;
    create_secret = λ t secret. none;
    update_secret = λ t secret. none;
  };
  collector = Client.cluster;
  setup = Setup.env;
  namespace = "tenant";
  catalog_hash = "hash";
  now = λ t. "2026-01-01T00:00:00Z";
  get_workload = λ t name. ok workload;
  create_workload = λ t w. ok w;
  update_workload = λ t w. ok w;
  delete_workload = λ t name. none;
  list_nodes = λ t. err denied;
  list_deployments = λ t. err denied;
}

abbrev pub session : Session
session = record {
  tokens = record {
    heartbeat_token = "";
    deploy_token = "";
    catalog_hash = "";
    operator_version = "";
    tags_fingerprint = "";
  };
  secret = "secret";
}

start-AllBacked_example : AllBacked parts (start (assembled parts) 2 session []).1
start-AllBacked_example = start-AllBacked parts 2 session

heartbeat_once-registrations_example :
    let after = registrations (heartbeat_once (assembled parts) session []).1 in
    ((after ≡ suc (registrations [])) ↔ IsRejected parts session [])
    × ((after ≡ registrations []) ↔ (¬ IsRejected parts session []))
heartbeat_once-registrations_example = heartbeat_once-registrations parts session []

registers : (register (assembled parts) session []).0.1 ≡ none
unfolding register store_calls requests Calls.register Calls.read_registered Http.post
    TokenStore.save is_kind ErrorKind-discrete TokenStore.new_secret
registers = refl

abbrev later : List World.Event
later = (register (assembled parts) session []).1

abbrev offers : List ClaimableWorkload × List PendingOperation
offers = (record { workload_id = "w1"; template_id = "nginx" } ∷ [], [])

-- What the registration has saved.
abbrev issued : Tokens
issued = record {
  heartbeat_token = "h";
  deploy_token = "d";
  catalog_hash = "hash";
  operator_version = "v1";
  tags_fingerprint = "unset";
}

has_issued : new_tokens parts session [] ≡ issued
unfolding register Calls.register Calls.read_registered Http.post requests store_calls
    TokenStore.save is_kind ErrorKind-discrete TokenStore.new_secret Calls.tags_fingerprint
has_issued = refl

kept : IsKept parts session [] later
unfolding register Calls.register Calls.read_registered Http.post requests store_calls
    TokenStore.save is_kind ErrorKind-discrete TokenStore.new_secret Calls.tags_fingerprint
kept secret (inl (e, f)) = ground arith
kept secret (inr (e, f)) = absurd (ground arith)

taken :
    (assembled parts).heartbeat
      (loaded_tokens ∷ later)
      (new_tokens parts session []).heartbeat_token
      none
      none
    ≡ ok offers
unfolding register Calls.heartbeat Calls.read_heartbeat Http.post
taken = refl

load_or_register-restart_example : load_or_register (assembled parts) session later ≡ (
  (record session { tokens = new_tokens parts session [] }, none),
  sent_heartbeat (new_tokens parts session []).heartbeat_token none none ∷ loaded_tokens ∷ later,
)
load_or_register-restart_example =
    load_or_register-restart parts session [] session later offers registers
      (λ e.
        let blank : ◌≡◌ {A = String} "h" "" =
          sym (ap (λ (k : Tokens). k.heartbeat_token) has_issued) ∙ e in
        cc)
      (λ e.
        let blank : ◌≡◌ {A = String} "d" "" =
          sym (ap (λ (k : Tokens). k.deploy_token) has_issued) ∙ e in
        cc)
      kept taken
