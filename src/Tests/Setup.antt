-- ===== src/Tests/Setup.antt =====
-- The start of the operator at a concrete environment.
use ai_cloud_operator.Base.{
  List, [], ◌∷◌, none, some, leaf, ErrorKind, ErrorKind-discrete, is_kind, ok, ◌≡◌, refl,
}
use ai_cloud_operator.Base.Int.{pos}
use ai_cloud_operator.Setup.World.{Env, Settings, Event}
use ai_cloud_operator.Setup.Namespace.{ensure_namespace, label_namespace}
use ai_cloud_operator.Setup.Integration.{
  getenv, current_secret, trimmed_tags, split_commas, operator_tags, interval, is_missing, add_then,
  settings, finish_setup, setup_parts, setup_namespace, setup_key, setup_secret,
  setup_convex_integration,
}
use ai_cloud_operator.Setup.Started.{Started, setup_convex_integration-Started}
use ai_cloud_operator.Setup.Launch
use ai_cloud_operator.Setup.Launched
use ai_cloud_operator.Setup.Launched.{main-Launch}

-- Every variable is "a,,b", and the namespace exists already.
abbrev pub env : Env
env = record {
  lookup_env = λ key. some "a,,b";
  trim_space = λ s. s;
  parse_duration = λ s. ok (pos 5);
  read_file = λ t. ok "secret";
  load_key = λ t. ok "key";
  create_namespace = λ t name. some (leaf ErrorKind.already_exists "already exists");
  patch_namespace = λ t name. none;
  add = λ t part. none;
  new_collector = none;
  new_proxy = none;
  new_executor = none;
  quote = λ s. s;
}

abbrev made : Settings
made = settings env "secret" "key" (pos 5) (pos 5)

three_parts : operator_tags env (some "a,,b") ≡ some ("a" ∷ "b" ∷ [])
unfolding operator_tags trimmed_tags split_commas
three_parts = refl

abbrev calls : List Event
calls = (setup_convex_integration env []).1

sets_up : setup_convex_integration env [] ≡ (ok made, calls)
unfolding setup_convex_integration is_missing getenv setup_secret current_secret setup_key
    setup_namespace ensure_namespace label_namespace is_kind ErrorKind-discrete setup_parts interval
    add_then finish_setup
sets_up = refl

setup_convex_integration-Started_example : Started env [] made calls
setup_convex_integration-Started_example =
    setup_convex_integration-Started env [] calls made sets_up

abbrev launch_env : Launch.Env
launch_env = record {
  parse = λ flags. flags;
  get_config = none;
  new_manager = λ options. none;
  integration = env;
  setup_with_manager = λ options. none;
  add_healthz_check = none;
  add_readyz_check = none;
  start_manager = λ t. none;
}

main-Launch_example : Launched.Launch launch_env (Launch.main launch_env [])
main-Launch_example = main-Launch launch_env

-- The run of this environment ends in order.
main-zero : (Launch.main launch_env []).0 ≡ 0
unfolding Launch.main Launch.integrate Launch.add_checks Launch.run_manager Launch.step_then
    setup_convex_integration is_missing getenv setup_secret current_secret setup_key setup_namespace
    ensure_namespace label_namespace is_kind ErrorKind-discrete setup_parts interval add_then
    finish_setup
main-zero = refl
