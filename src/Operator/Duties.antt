-- ===== src/Operator/Duties.antt =====
-- internal/convexclient/runnable.go: what holds of a whole run of `Start`.
use ai_cloud_operator.Base.{
  ℕ, zero, suc, List, ◌∷◌, Option, ◌||◌, ◌==◌, ◌≡◌, refl, inl, inr, GoError, Result, ok, err,
  Bool-cases, Option-cases, Result-cases, arith,
}
use ai_cloud_operator.Capacity.Tracker.{Snapshot}
use ai_cloud_operator.Operator.World.{
  Env, Event, ClaimableWorkload, PendingOperation, created_workload, updated_workload,
  deleted_workload, sent_heartbeat, read_capacity, read_usage, read_enrollment,
}
use ai_cloud_operator.Operator.Claims.{process_claimable}
use ai_cloud_operator.Operator.Registration.{
  Session, is_unauthorized, load_or_register, read_snapshot, read_live, after_heartbeat,
  heartbeat_once, check_enrollment_secret,
}
use ai_cloud_operator.Operator.Serving.{tick, run_ticks, start}
use ai_cloud_operator.Operator.Ticks.{IsJust, IsOrderly, process_claimable-IsOrderly}
use ai_cloud_operator.Operator.Operations.{IsDue, IsDutiful}
use ai_cloud_operator.Operator.PendingTicks.{process_pending_operations-IsDutiful}
use ai_cloud_operator.Operator.Sessions.{
  Startup, reused, anew, Unusable, unreadable, missing, rejected, outdated, RegisterRun, refused,
  unsaved, renewed, register-RegisterRun, load_or_register-Startup,
}
use ai_cloud_operator.Operator.Extents.{
  Extends, same, more, Extends-trans, Extends-map, IsUpkeep, IsIntake, IsPlain, IsReading,
  IsReading-IsPlain,
}
use ai_cloud_operator.Operator.Upkeep.{process_pending_operations-Extends}
use ai_cloud_operator.Operator.Intake.{process_claimable-Extends}

module _ (env : Env) where
  -- Every write of a resource in the history was granted by Convex.
  abbrev pub IsFaithful : List Event → Type 0
  IsFaithful t = IsOrderly env t × IsDutiful env t

  IsUpkeep-IsJust : (e : Event) (t : List Event) → IsUpkeep e → IsJust env e t
  IsUpkeep-IsJust (created_workload w) t h = absurd h
  IsUpkeep-IsJust _ t h = tt

  IsIntake-IsDue : (e : Event) (t : List Event) → IsIntake e → IsDue env e t
  IsIntake-IsDue (updated_workload w) t h = absurd h
  IsIntake-IsDue (deleted_workload name) t h = absurd h
  IsIntake-IsDue _ t h = tt

  IsPlain-both : (e : Event) (t : List Event) → IsPlain e → IsJust env e t × IsDue env e t
  IsPlain-both (created_workload w) t h = absurd h
  IsPlain-both (updated_workload w) t h = absurd h
  IsPlain-both (deleted_workload name) t h = absurd h
  IsPlain-both _ t h = (tt, tt)

  upkeep-IsOrderly : {t s : List Event} → Extends IsUpkeep t s → IsOrderly env t → IsOrderly env s
  upkeep-IsOrderly (same e) o = rw e o
  upkeep-IsOrderly (more {e} {s} p x) o = (IsUpkeep-IsJust e s p, upkeep-IsOrderly x o)

  intake-IsDutiful : {t s : List Event} → Extends IsIntake t s → IsDutiful env t → IsDutiful env s
  intake-IsDutiful (same e) d = rw e d
  intake-IsDutiful (more {e} {s} p x) d = (IsIntake-IsDue e s p, intake-IsDutiful x d)

  plain-IsFaithful : {t s : List Event} → Extends IsPlain t s → IsFaithful t → IsFaithful s
  plain-IsFaithful (same e) h = rw e h
  plain-IsFaithful (more {e} {s} p x) h =
      let (just, due) = IsPlain-both e s p in
      let (o, d) = plain-IsFaithful x h in ((just, o), (due, d))

  RegisterRun-IsPlain :
      {s : Session} {t : List Event} {r : (Session × Option GoError) × List Event}
      → RegisterRun env s t r
      → Extends IsPlain t r.1
  RegisterRun-IsPlain (refused e f g) = rw g (more tt (same refl))
  RegisterRun-IsPlain (unsaved k e f g h) = rw h (more tt (more tt (same refl)))
  RegisterRun-IsPlain (renewed k f g h) = rw h (more tt (more tt (same refl)))

  Unusable-IsPlain : {t s : List Event} → Unusable env t s → Extends IsPlain t s
  Unusable-IsPlain (unreadable e f g) = rw g (more tt (same refl))
  Unusable-IsPlain (missing f g) = rw g (more tt (same refl))
  Unusable-IsPlain (rejected k e f g h) = rw h (more tt (more tt (same refl)))
  Unusable-IsPlain (outdated k f g h) = rw h (more tt (more tt (same refl)))

  Startup-IsPlain :
      {s : Session} {t : List Event} {r : (Session × Option GoError) × List Event}
      → Startup env s t r
      → Extends IsPlain t r.1
  Startup-IsPlain (reused k answer f g h e) = rw e (more tt (more tt (same refl)))
  Startup-IsPlain (anew t' why run) = Extends-trans (Unusable-IsPlain why) (RegisterRun-IsPlain run)

  pub read_snapshot-Extends : (t : List Event) → Extends IsReading t (read_snapshot env t).1
  unfolding read_snapshot
  read_snapshot-Extends t = elim (Bool-cases env.has_capacity) [
    | inr off ↦ let e : (read_snapshot env t).1 ≡ t = ground arith in same e
    | inl on ↦
        let e : (read_snapshot env t).1 ≡ read_capacity ∷ t = elim (Result-cases (env.capacity t)) [
          | inl (snap, f) ↦ ground arith
          | inr (x, f) ↦ ground arith
        ] in
        rw e (more tt (same refl))
  ]

  pub read_live-Extends : (t : List Event) → Extends IsReading t (read_live env t).1
  unfolding read_live
  read_live-Extends t = elim (Bool-cases env.has_usage) [
    | inr off ↦ let e : (read_live env t).1 ≡ t = ground arith in same e
    | inl on ↦
        let e : (read_live env t).1 ≡ read_usage ∷ t = elim (Result-cases (env.usage t)) [
          | inl (live, f) ↦ ground arith
          | inr (x, f) ↦ ground arith
        ] in
        rw e (more tt (same refl))
  ]

  after_heartbeat-IsFaithful :
      (s : Session) (snap : Option Snapshot)
      (answer : Result (List ClaimableWorkload × List PendingOperation)) (t : List Event)
      → IsFaithful t
      → IsFaithful (after_heartbeat env s snap answer t).1
  unfolding after_heartbeat
  after_heartbeat-IsFaithful s snap (err e) t h = elim (Bool-cases (is_unauthorized e)) [
    | inl f ↦
        rw (after_heartbeat, f)
          (plain-IsFaithful (RegisterRun-IsPlain (register-RegisterRun env s t)) h)
    | inr f ↦ rw (after_heartbeat, f) h
  ]
  after_heartbeat-IsFaithful s snap (ok (claimable, pending)) t (o, d) =
      let token = s.tokens.heartbeat_token in
      let taken = process_claimable env token claimable snap t in
      (
        upkeep-IsOrderly (process_pending_operations-Extends env token pending taken.1)
            (process_claimable-IsOrderly env token claimable snap t o),
        process_pending_operations-IsDutiful env token pending taken.1
            (intake-IsDutiful (process_claimable-Extends env token claimable snap t) d),
      )

  heartbeat_once-IsFaithful :
      (s : Session) (t : List Event) → IsFaithful t → IsFaithful (heartbeat_once env s t).1
  unfolding heartbeat_once
  heartbeat_once-IsFaithful s t h =
      let snap = read_snapshot env t in
      let live = read_live env snap.1 in
      after_heartbeat-IsFaithful s snap.0 _ _ (
        plain-IsFaithful
          (more {e = sent_heartbeat s.tokens.heartbeat_token snap.0 live.0} tt (
            Extends-map IsReading-IsPlain
              (Extends-trans (read_snapshot-Extends t) (read_live-Extends snap.1))))
          h)

  check_enrollment_secret-IsFaithful :
      (s : Session) (t : List Event) → IsFaithful t → IsFaithful (check_enrollment_secret env s t).1
  unfolding check_enrollment_secret
  check_enrollment_secret-IsFaithful s t h = elim (Result-cases (env.enrollment t)) [
    | inr (e, f) ↦
        rw (check_enrollment_secret, f)
          (plain-IsFaithful (more {e = read_enrollment} tt (same refl)) h)
    | inl (current, f) ↦ elim (Bool-cases (current == "" || current == s.secret)) [
      | inl g ↦
          rw (check_enrollment_secret, f, g)
            (plain-IsFaithful (more {e = read_enrollment} tt (same refl)) h)
      | inr g ↦
          let run =
            register-RegisterRun env (record s { secret = current }) (read_enrollment ∷ t) in
          rw (check_enrollment_secret, f, g)
            (plain-IsFaithful
              (Extends-trans (more {e = read_enrollment} tt (same refl)) (RegisterRun-IsPlain run))
              h)
    ]
  ]

  run_ticks-IsFaithful :
      (n : ℕ) (s : Session) (t : List Event) → IsFaithful t → IsFaithful (run_ticks env n s t).1
  unfolding run_ticks tick
  run_ticks-IsFaithful zero s t h = h
  run_ticks-IsFaithful (suc n) s t h =
      let beaten = heartbeat_once env s t in
      let checked = check_enrollment_secret env beaten.0 beaten.1 in
      run_ticks-IsFaithful n checked.0 checked.1
        (check_enrollment_secret-IsFaithful beaten.0 beaten.1 (heartbeat_once-IsFaithful s t h))

  -- In a run of `Start` of any number of ticks, whatever Convex, the API server and the stores
  -- answer, each creation, update and deletion of a resource comes right after a claim that Convex
  -- granted for it.
  pub start-IsFaithful :
      (ticks : ℕ) (s : Session) (t : List Event) → IsFaithful t → IsFaithful (start env ticks s t).1
  unfolding start load_or_register
  start-IsFaithful ticks s t h =
      let began = load_or_register env s t in
      let after = plain-IsFaithful (Startup-IsPlain (load_or_register-Startup env s t)) h in
      elim (Option-cases began.0.1) [
        | inr (e, f) ↦ rw (start, f) after
        | inl f ↦ rw (start, f) (run_ticks-IsFaithful ticks began.0.0 began.1 after)
      ]
