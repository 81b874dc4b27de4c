-- ===== src/Setup/Launch.antt =====
-- cmd/main.go: `main`, from the parsed flags to its exit code.
use ai_cloud_operator.Base.{ℕ, List, [], ◌++◌, map, Option, none, some, GoError, ok, err}
use ai_cloud_operator.Base.Effects.{M, return, call, ◌>>=◌}
use ai_cloud_operator.Setup.World
use ai_cloud_operator.Setup.Options.{
  Flags, default_flags, ManagerOptions, manager_options, ControllerOptions, controller_options,
}
use ai_cloud_operator.Setup.Integration.{setup_convex_integration}

pub data Event : Type 0 where
  read_config : Event
  made_manager : ManagerOptions → Event
  integrated : World.Event → Event
  made_controller : ControllerOptions → Event
  added_healthz added_readyz : Event
  started_manager : Event

-- `parse` is flag.Parse, which gets the flags as they are where the command line sets none.
-- GetConfigOrDie ends the process with 1 where it has no configuration.
pub record Env : Type 0 where
  pub parse : Flags → Flags
  pub get_config : Option GoError
  pub new_manager : ManagerOptions → Option GoError
  pub integration : World.Env
  pub setup_with_manager : ControllerOptions → Option GoError
  pub add_healthz_check : Option GoError
  pub add_readyz_check : Option GoError
  pub start_manager : List Event → Option GoError

module _ (env : Env) where
  abbrev pub flags : Flags
  flags = env.parse default_flags

  -- A step that ends the process with 1 where it fails.
  unfoldable pub step_then : Event → (List Event → Option GoError) → M Event ℕ → M Event ℕ
  step_then event answer next = do
    failed ← call event answer
    elim failed [ some e ↦ return 1 | none ↦ next ]

  -- From the start of the manager; where it is stopped in order, main returns.
  unfoldable pub run_manager : M Event ℕ
  run_manager = step_then started_manager env.start_manager (return 0)

  -- From the controller on.
  unfoldable pub add_checks : M Event ℕ
  add_checks =
      step_then (made_controller controller_options)
        (λ t. env.setup_with_manager controller_options)
        (step_then added_healthz (λ t. env.add_healthz_check)
          (step_then added_readyz (λ t. env.add_readyz_check) run_manager))

  -- The calls of setupConvexIntegration have a history of their own.
  unfoldable pub integrate : M Event ℕ
  integrate t =
      let r = setup_convex_integration env.integration [] in
      let after = map integrated r.1 ++ t in
      elim r.0 [ err e ↦ (1, after) | ok settings ↦ add_checks after ]

  unfoldable pub main : M Event ℕ
  main =
      step_then read_config (λ t. env.get_config)
        (step_then (made_manager (manager_options flags))
          (λ t. env.new_manager (manager_options flags)) integrate)
