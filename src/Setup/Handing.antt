-- ===== src/Setup/Handing.antt =====
-- cmd/main.go: the parts that setupConvexIntegration hands to the manager.
use ai_cloud_operator.Base.{
  String, List, ◌∷◌, Option, none, some, GoError, Result, ok, Option-cases, Result-cases, ◌≡◌, inl,
  inr, arith,
}
use ai_cloud_operator.Base.Effects.{M}
use ai_cloud_operator.Base.Int.{ℤ, pos}
use ai_cloud_operator.Setup.World.{
  Component, tracker, runnable, reporter, server, Event, added, Env, Settings,
}
use ai_cloud_operator.Setup.Integration.{
  interval, add_then, made_then, settings, finish_setup, setup_parts,
}

-- The parts in the order in which the manager gets them.
abbrev pub all_added : List Event → List Event
all_added t = added server ∷ added reporter ∷ added runnable ∷ added tracker ∷ t

module _ (env : Env) where
  add_then-ok :
      {A : Type 0} (part : Component) (next : M Event (Result A)) (t s : List Event) (a : A)
      → add_then env part next t ≡ (ok a, s)
      → next (added part ∷ t) ≡ (ok a, s)
  unfolding add_then
  add_then-ok part next t s a e = elim (Option-cases (env.add t part)) [
    | inl f ↦ rw (add_then, f) at e
    | inr (x, f) ↦ absurd (ground arith)
  ]

  made_then-ok :
      {A : Type 0} (failed : Option GoError) (before : String) (next : M Event (Result A))
      (t s : List Event) (a : A)
      → made_then env failed before next t ≡ (ok a, s)
      → next t ≡ (ok a, s)
  made_then-ok none before next t s a e = e
  made_then-ok (some x) before next t s a e = absurd (ground arith)

  settled :
      {a b : Settings} {s t : List Event}
      → ◌≡◌ {A = Result Settings × List Event} (ok a, t) (ok b, s)
      → (b ≡ a) × (s ≡ t)
  settled e = (ground arith, ground arith)

  finish_setup-ok :
      (secret key : String) (heartbeat : ℤ) (t s : List Event) (a : Settings)
      → finish_setup env secret key heartbeat t ≡ (ok a, s)
      → (metrics : ℤ) × (a ≡ settings env secret key heartbeat metrics)
        × (s ≡ added server ∷ added reporter ∷ t)
  unfolding finish_setup
  finish_setup-ok secret key heartbeat t s a e =
      elim (Result-cases (interval env "METRICS_REPORT_INTERVAL" (pos 300000000000))) [
        | inr (x, f) ↦ absurd (ground arith)
        | inl (metrics, f) ↦
            let begun = rw (finish_setup, f) at e in
            let proxied =
              made_then-ok env.new_proxy _ _ _ s a (add_then-ok reporter _ t s a begun) in
            let executed = made_then-ok env.new_executor _ _ _ s a proxied in
            let served = add_then-ok server _ (added reporter ∷ t) s a executed in
            let (same, calls) = settled served in (metrics, same, calls)
      ]

  pub setup_parts-ok :
      (secret key : String) (t s : List Event) (a : Settings)
      → setup_parts env secret key t ≡ (ok a, s)
      → (heartbeat : ℤ) × (metrics : ℤ) × (a ≡ settings env secret key heartbeat metrics)
        × (s ≡ all_added t)
  unfolding setup_parts
  setup_parts-ok secret key t s a e =
      elim (Result-cases (interval env "HEARTBEAT_INTERVAL" (pos 30000000000))) [
        | inr (x, f) ↦ absurd (ground arith)
        | inl (heartbeat, f) ↦
            let begun = rw (setup_parts, f) at e in
            let made =
              made_then-ok env.new_collector _ _ _ s a (add_then-ok tracker _ t s a begun) in
            let (metrics, same, calls) =
              finish_setup-ok secret key heartbeat (added runnable ∷ added tracker ∷ t) s a
                (add_then-ok runnable _ (added tracker ∷ t) s a made) in
            (heartbeat, metrics, same, calls)
      ]
