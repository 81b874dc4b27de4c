-- ===== src/Assembly/Recording.antt =====
-- internal/controller, internal/convexclient: what the conditions of a Workload record of Convex.
use ai_cloud_operator.Base.{
  List, Bool, true, false, Bool-cases, Option-cases, ◌≡◌, refl, sym, ap, ◌∙◌, inl, inr, ◌⊎◌, arith,
}
use ai_cloud_operator.Workload.{Workload, ConditionType}
use ai_cloud_operator.Operator.Registration.{Session}
use ai_cloud_operator.Client.Http
use ai_cloud_operator.Client.Reports.{Foreign}
use ai_cloud_operator.Controller.World.{Env, Event, LifecyclePhase, ConditionLaws}
use ai_cloud_operator.Controller.Sync.{
  info_of, notify_upserted, notify_lifecycle, with_condition, is_synced, upsert_condition,
  sync_convex, lifecycle_condition, sync_lifecycle,
}
use ai_cloud_operator.Controller.Syncing.{
  is_synced-with_condition_ne, upsert_condition-kind, sync_convex_skip, sync_convex_try,
  sync_lifecycle_skip, sync_lifecycle_try, lifecycle_condition-shape,
}
use ai_cloud_operator.Assembly.Telling.{
  Within, at_once, before, OwnerConfirmed, ReportConfirmed, Confirmed-later, env,
  notify_upserted-Confirmed, notify_lifecycle-Confirmed, notify_lifecycle-stale,
}

module _ (http : Http.Env) (session : List Event → Session) (base : Env) where
  abbrev whole : Env
  whole = env http session base

  module _ (laws : ConditionLaws whole) where
    pub sync_convex-Confirmed :
        (w : Workload) (t : List Event)
        → (sync_convex whole w t).0.1 ≡ true
        → (is_synced whole ConditionType.convex_synced w ≡ true)
          ⊎ OwnerConfirmed http session base (sync_convex whole w t).1 w
    unfolding upsert_condition
    sync_convex-Confirmed w t e =
        elim (Bool-cases (is_synced whole ConditionType.convex_synced w)) [
          | inl f ↦ inl f
          | inr f ↦ elim (Option-cases (notify_upserted whole w t).0) [
            | inl g ↦ inr (
                Confirmed-later http session base
                  (at_once (
                    ap (λ (r : (Workload × Bool) × List Event). r.1)
                      (sync_convex_try whole laws w t f)))
                  (notify_upserted-Confirmed http session base w t g))
            | inr (x, g) ↦
                let tried = sync_convex_try whole laws w t f in
                let status : (upsert_condition whole w (notify_upserted whole w t).0).status
                    ≡ true =
                  ap (λ (r : (Workload × Bool) × List Event). r.0.1) (sym tried) ∙ e in
                absurd (ground arith)
          ]
        ]

    pub sync_lifecycle-Confirmed :
        Foreign http
        → (w : Workload) (phase : LifecyclePhase) (t : List Event)
        → (sync_lifecycle whole w phase t).0.1 ≡ true
        → (is_synced whole ConditionType.convex_lifecycle_synced w ≡ true)
          ⊎ (ReportConfirmed http session base
                (sync_lifecycle whole w phase t).1
                (info_of w)
                phase
                ""
                false
                200
              ⊎ ReportConfirmed http session base
                  (sync_lifecycle whole w phase t).1
                  (info_of w)
                  phase
                  ""
                  false
                  409)
    sync_lifecycle-Confirmed foreign w phase t e =
        let answer = (notify_lifecycle whole w phase "" false t).0 in
        elim (Bool-cases (is_synced whole ConditionType.convex_lifecycle_synced w)) [
          | inl f ↦ inl f
          | inr f ↦
              let tried = sync_lifecycle_try whole laws w phase t f in
              let made = at_once (ap (λ (r : (Workload × Bool) × List Event). r.1) tried) in
              let shape = (lifecycle_condition-shape whole laws w phase answer).2 in
              let status : (lifecycle_condition whole w phase answer).status ≡ true =
                ap (λ (r : (Workload × Bool) × List Event). r.0.1) (sym tried) ∙ e in
              elim (Option-cases answer) [
                | inl g ↦ inr (
                    inl (
                      Confirmed-later http session base made
                        (notify_lifecycle-Confirmed http session base w phase "" false t g)))
                | inr (x, g) ↦
                    let stale =
                      notify_lifecycle-stale http session base foreign w phase "" false t x g
                        (ground arith) in
                    inr (inr (Confirmed-later http session base made stale))
              ]
        ]

    pub sync_lifecycle-Within :
        (w : Workload) (phase : LifecyclePhase) (t : List Event)
        → Within t (sync_lifecycle whole w phase t).1
    unfolding notify_lifecycle
    sync_lifecycle-Within w phase t =
        elim (Bool-cases (is_synced whole ConditionType.convex_lifecycle_synced w)) [
          | inl f ↦ rw (sync_lifecycle_skip whole laws w phase t f) (at_once refl)
          | inr f ↦ rw (sync_lifecycle_try whole laws w phase t f) (before (at_once refl))
        ]

    -- The ownership info has no bearing on the record of the lifecycle report.
    pub sync_convex-lifecycle :
        (w : Workload) (t : List Event)
        → is_synced whole ConditionType.convex_lifecycle_synced (sync_convex whole w t).0.0
          ≡ is_synced whole ConditionType.convex_lifecycle_synced w
    sync_convex-lifecycle w t = elim (Bool-cases (is_synced whole ConditionType.convex_synced w)) [
      | inl f ↦ rw (sync_convex_skip whole laws w t f) refl
      | inr f ↦
          let failed = (notify_upserted whole w t).0 in
          rw (sync_convex_try whole laws w t f) (
            is_synced-with_condition_ne whole laws w (upsert_condition whole w failed)
              ConditionType.convex_lifecycle_synced
              (rw (upsert_condition-kind whole laws w failed) (λ x. cc)))
    ]

    -- What names the Workload to Convex stays as it is.
    pub sync_convex-info :
        (w : Workload) (t : List Event) → info_of (sync_convex whole w t).0.0 ≡ info_of w
    unfolding with_condition
    sync_convex-info w t = elim (Bool-cases (is_synced whole ConditionType.convex_synced w)) [
      | inl f ↦ rw (sync_convex_skip whole laws w t f) refl
      | inr f ↦ rw (sync_convex_try whole laws w t f) refl
    ]
