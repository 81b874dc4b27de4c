-- ===== src/Assembly/Renewal.antt =====
-- internal/convexclient: which answers of Convex make a tick register anew.
use ai_cloud_operator.Base.{
  ℕ, suc, ap, List, [], ◌∷◌, Option, some, true, GoError, Result, ok, err, Bool-cases, ◌≡◌, ◌≢◌,
  refl, ◌∙◌, inl, inr, ◌⊎◌, ◌↔◌, arith,
}
use ai_cloud_operator.Capacity.Tracker.{Snapshot}
use ai_cloud_operator.Client.Http
use ai_cloud_operator.Client.Verdicts.{Answered, heartbeat_body, heartbeat-unauthorized_iff}
use ai_cloud_operator.Operator.World.{
  Env, Event, UsageSnapshot, ClaimableWorkload, PendingOperation, registered, sent_heartbeat,
}
use ai_cloud_operator.Operator.Claims.{process_claimable}
use ai_cloud_operator.Operator.Registration.{
  Session, is_unauthorized, read_snapshot, read_live, after_heartbeat, heartbeat_once,
}
use ai_cloud_operator.Operator.Sessions.{
  RegisterRun, refused, unsaved, renewed, register-RegisterRun,
}
use ai_cloud_operator.Operator.Extents.{
  Extends, same, more, Extends-trans, IsUpkeep, IsIntake, IsReading,
}
use ai_cloud_operator.Operator.Upkeep.{process_pending_operations-Extends}
use ai_cloud_operator.Operator.Intake.{process_claimable-Extends}
use ai_cloud_operator.Operator.Duties.{read_snapshot-Extends, read_live-Extends}
use ai_cloud_operator.Assembly.Parts.{Parts, requests, assembled}

-- How many registrations a history holds.
pub registrations : List Event → ℕ
registrations [] = 0
registrations (registered secret ∷ t) = suc (registrations t)
registrations (_ ∷ t) = registrations t

-- Where none of the new calls is a registration.
Extends-registrations :
    {P : Event → Type 0}
    → ((e : Event) (t : List Event) → P e → registrations (e ∷ t) ≡ registrations t)
    → {t s : List Event} → Extends P t s
    → registrations s ≡ registrations t
Extends-registrations keep (same e) = rw e refl
Extends-registrations keep (more {e} {s} p x) = keep e s p ∙ Extends-registrations keep x

upkeep_registers_none :
    (e : Event) (t : List Event) → IsUpkeep e → registrations (e ∷ t) ≡ registrations t
unfolding registrations
upkeep_registers_none (registered secret) t h = absurd h
upkeep_registers_none _ t h = refl

intake_registers_none :
    (e : Event) (t : List Event) → IsIntake e → registrations (e ∷ t) ≡ registrations t
unfolding registrations
intake_registers_none (registered secret) t h = absurd h
intake_registers_none _ t h = refl

reading_registers_none :
    (e : Event) (t : List Event) → IsReading e → registrations (e ∷ t) ≡ registrations t
unfolding registrations
reading_registers_none (registered secret) t h = absurd h
reading_registers_none _ t h = refl

module _ (env : Env) where
  register-registrations :
      {s : Session} {t : List Event} {r : (Session × Option GoError) × List Event}
      → RegisterRun env s t r
      → registrations r.1 ≡ suc (registrations t)
  unfolding registrations
  register-registrations (refused e f g) = rw g refl
  register-registrations (unsaved k e f g h) = rw h refl
  register-registrations (renewed k f g h) = rw h refl

  -- After the heartbeat's answer there is a registration exactly where the answer is a rejection.
  after_heartbeat-registrations :
      (s : Session) (snap : Option Snapshot)
      (answer : Result (List ClaimableWorkload × List PendingOperation)) (t : List Event)
      → ((e : GoError) × (answer ≡ err e)
          × (is_unauthorized e ≡ true)
          × (registrations (after_heartbeat env s snap answer t).1 ≡ suc (registrations t)))
        ⊎ (((e : GoError) → answer ≡ err e → is_unauthorized e ≢ true)
            × (registrations (after_heartbeat env s snap answer t).1 ≡ registrations t))
  unfolding after_heartbeat
  after_heartbeat-registrations s snap (err e) t = elim (Bool-cases (is_unauthorized e)) [
    | inl f ↦ inl (
      e,
      refl,
      f,
      rw (after_heartbeat, f) (register-registrations (register-RegisterRun env s t)),
    )
    | inr f ↦ inr (λ x g h. let alike : e ≡ x = ground arith in cc, rw (after_heartbeat, f) refl)
  ]
  after_heartbeat-registrations s snap (ok (claimable, pending)) t =
      let token = s.tokens.heartbeat_token in
      let taken = process_claimable env token claimable snap t in
      inr (
        λ x g h. absurd (ground arith),
        Extends-registrations upkeep_registers_none
              (process_pending_operations-Extends env token pending taken.1)
            ∙ Extends-registrations intake_registers_none
                (process_claimable-Extends env token claimable snap t),
      )

module _ (parts : Parts) (s : Session) (t : List Event) where
  -- What the heartbeat of a tick reports, and the history at which it is sent.
  abbrev pub snapshot_read : Option Snapshot × List Event
  snapshot_read = read_snapshot (assembled parts) t

  abbrev pub usage_read : Option UsageSnapshot × List Event
  usage_read = read_live (assembled parts) snapshot_read.1

  -- Convex has answered the heartbeat of this tick with 401 or 410.
  abbrev pub IsRejected : Type 0
  IsRejected =
      (r : Http.Response) × Answered parts.http (requests parts usage_read.1) "/operators/heartbeat"
        (some s.tokens.heartbeat_token) (heartbeat_body parts.http snapshot_read.0 usage_read.0) r
      × ((r.status ≡ 401) ⊎ (r.status ≡ 410))

  reads-registrations : registrations usage_read.1 ≡ registrations t
  reads-registrations = Extends-registrations reading_registers_none (
      Extends-trans (read_snapshot-Extends (assembled parts) t)
        (read_live-Extends (assembled parts) snapshot_read.1))

  -- The heartbeat of a tick of the assembled operator registers anew, once, exactly where Convex
  -- has answered it with 401 or 410; after every other answer, or none, it registers nothing.
  pub heartbeat_once-registrations :
      let after = registrations (heartbeat_once (assembled parts) s t).1 in
      ((after ≡ suc (registrations t)) ↔ IsRejected) × ((after ≡ registrations t) ↔ (¬ IsRejected))
  unfolding heartbeat_once
  heartbeat_once-registrations =
      let token = s.tokens.heartbeat_token in
      let seen = reads-registrations in
      let sent = sent_heartbeat token snapshot_read.0 usage_read.0 ∷ usage_read.1 in
      let rejection =
        heartbeat-unauthorized_iff parts.http (requests parts usage_read.1) token snapshot_read.0
          usage_read.0 in
      let plain =
        reading_registers_none (sent_heartbeat token snapshot_read.0 usage_read.0) usage_read.1 tt
        ∙ seen in
      elim (after_heartbeat-registrations (assembled parts) s snapshot_read.0
        ((assembled parts).heartbeat usage_read.1 token snapshot_read.0 usage_read.0) sent) [
          | inl (e, f, u, count) ↦
              let rejected : IsRejected = rejection.0 (e, f, u) in
              (
                (λ h. rejected, λ h. count ∙ ap suc plain),
                (λ h. absurd (omega (arith, count, plain)), λ h. absurd (h rejected)),
              )
          | inr (fine, count) ↦
              let accepted : ¬ IsRejected = λ h. let (e, f, u) = rejection.1 h in fine e f u in
              (
                (λ h. absurd (omega (arith, count, plain)), λ h. absurd (accepted h)),
                (λ h. accepted, λ h. count ∙ plain),
              )
        ]
