-- ===== src/Tests/Gateway.antt =====
-- The key store and the proxy at concrete inputs.
use ai_cloud_operator.Base.{
  String, List, [], ◌∷◌, none, some, GoError, leaf, ErrorKind, is_kind, ErrorKind-discrete,
  get_text, lookup, Result, ok, err, ◌≡◌, ◌≢◌, eq_iff, refl, All, arith,
}
use ai_cloud_operator.Base.Int.{pos}
use ai_cloud_operator.Kube.{ServicePort}
use ai_cloud_operator.Workload.{Workload, Phase}
use ai_cloud_operator.TokenStore.{Secret}
use ai_cloud_operator.Gateway.KeyStore.{
  Stage, start, drawing, creating, rereading, done, advance, key_secret, load_or_generate,
}
use ai_cloud_operator.Gateway.KeyStore
use ai_cloud_operator.Gateway.Stuck.{load_or_generate_stuck}
use ai_cloud_operator.Gateway.Race.{Cell, stores, here, there, Run, stop, then, starting}
use ai_cloud_operator.Gateway.Agreement.{Run-agrees}
use ai_cloud_operator.Gateway.Consensus.{Decisions, view, Run-refines}
use ai_cloud_operator.Gateway.Proxy.{Env, Request, upstream}
use ai_cloud_operator.Gateway.Routing.{Relayed, found, handler-forwards_iff, handler-no_token}
use ai_cloud_operator.Tests.Samples.{workload, find_condition}

-- Two replicas see no Secret; the second one creates it, and the first one takes its key.
abbrev last : Cell × List Stage
last = (some "b", done (ok "b") ∷ done (ok "b") ∷ [])

a-ne : ◌≢◌ {A = String} "a" ""
a-ne e = ground (arith, eq_iff "a" "")

b-ne : ◌≢◌ {A = String} "b" ""
b-ne e = ground (arith, eq_iff "b" "")

race : Run 7 (none, starting 2) last
unfolding advance stores is_kind ErrorKind-discrete get_text lookup key_secret
race = then (here "a" a-ne (omega arith)) (
    then (there (here "b" b-ne (omega arith))) (
      then (here "a" a-ne (omega arith)) (
        then (there (here "b" b-ne (omega arith))) (
          then (there (here "b" b-ne (omega arith)))
            (then (here "a" a-ne (omega arith)) (then (here "a" a-ne (omega arith)) stop))))))

Run-agrees_example :
    All
      (λ p.
        (r : Result String) → p ≡ done r → (key : String) × (r ≡ ok key) × (some "b" ≡ some key))
      (done (ok "b") ∷ done (ok "b") ∷ [])
Run-agrees_example = Run-agrees 2 7 none last (λ k e. cc) race

Run-refines_example : Decisions (view (none, starting 2)) (view last)
Run-refines_example = Run-refines 2 7 none last (λ k e. cc) race

abbrev empty_secret : Secret
empty_secret = record { labels = []; kind = "Opaque"; values = [] }

abbrev stuck : KeyStore.Env
stuck = record {
  get_secret = λ t. ok empty_secret;
  random = λ t. ok "key";
  create_secret = λ t x. some (leaf ErrorKind.already_exists "already exists");
}

load_or_generate_stuck_example : (e : GoError) × ((load_or_generate stuck []).0 ≡ err e)
unfolding get_text lookup is_kind ErrorKind-discrete
load_or_generate_stuck_example =
    load_or_generate_stuck stuck empty_secret [] (λ t. refl) refl
      (λ t x. (leaf ErrorKind.already_exists "already exists", refl, refl))

abbrev port : ServicePort
port = record { name = "http"; port = pos 80; target_port = pos 80 }

abbrev running : Workload
running = record workload { status = record (workload.status) { phase = Phase.running } }

abbrev pub env : Env
env = record {
  namespace = "tenant";
  get_workload = λ t namespace name. ok running;
  get_service = λ t namespace name. ok (port ∷ []);
  find_condition = find_condition;
  execute = λ page. none;
  show_int = λ n. "80";
}

abbrev pub request : Request
request = record {
  name = "web";
  entrypoint = "http";
  subpath = "index.html";
  query = ("a", "1") ∷ [];
}

pub relayed : Relayed env request [] (upstream env request (pos 80))
relayed = record {
  workload = running;
  ports = port ∷ [];
  port = pos 80;
  exists = refl;
  running = refl;
  served = refl;
  first = found refl refl;
  target = refl;
}

handler-no_token_example : All (λ kv. kv.0 ≢ "token") (upstream env request (pos 80)).query
handler-no_token_example =
    handler-no_token env request [] (upstream env request (pos 80))
      ((handler-forwards_iff env request [] (upstream env request (pos 80))).1 relayed)
