-- ===== src/Controller/Calm.antt =====
-- internal/controller/workload_controller.go: how the part of `Reconcile` that starts with rendering
-- may end.
use ai_cloud_operator.Base.{
  String, List, ◌∷◌, none, Bool, true, false, ◌≡◌, ◌≢◌, refl, inl, inr, Bool-cases, Result-cases,
  ok, GoError, errorf, Option-cases, arith,
}
use ai_cloud_operator.Kube.{Deployment}
use ai_cloud_operator.Workload.{Workload, Reason}
use ai_cloud_operator.Catalog.Types.{Rendered}
use ai_cloud_operator.Controller.World.{Env, Event, updated_status, got_deployment}
use ai_cloud_operator.Controller.Render.{selector_labels, render}
use ai_cloud_operator.Controller.Sync.{sync_convex, update_status}
use ai_cloud_operator.Controller.Reconcile.{
  done, is_settled, check_unschedulable, set_failed, set_failed_with_reason, render_reason,
  reconcile_deployment, reconcile_service,
}
use ai_cloud_operator.Controller.Loop.{finish, observe, write_failed, apply_objects, reconcile_spec}

module _ (env : Env) where
  abbrev pub Settles :
      String → String → Workload → Deployment → Workload → List Event → List Event → Type 0
  Settles namespace name w d stored s t' =
      let synced = sync_convex env w s in
      let r = update_status env synced.0.0 d (got_deployment namespace name ∷ synced.1) in
      (env.get_deployment synced.1 namespace name ≡ ok d)
      × (synced.0.1 ≡ true)
      × (r.0.1 ≡ true)
      × (env.update_status r.1 r.0.0 ≡ ok stored)
      × (is_settled stored.status.phase ≡ true)
      × (t' ≡ updated_status r.0.0 ∷ r.1)

  -- Both writes have succeeded; `s` is the history after them.
  abbrev pub Applied : Workload → List Event → List Event → Type 0
  Applied w t s =
      (rendered : Rendered) × (render env.lib w ≡ ok rendered)
      × ((reconcile_deployment env w rendered t).0 ≡ none)
      × ((reconcile_service env w rendered (reconcile_deployment env w rendered t).1).0 ≡ none)
      × (s ≡ (reconcile_service env w rendered (reconcile_deployment env w rendered t).1).1)

  -- Why the part of a run that starts with rendering may end in this way.
  pub data Calm (namespace name : String) (w : Workload) (t : List Event)
      : List Event → Type 0 where
    -- The claim was given up.
    given_up :
        {t' : List Event} (s : List Event)
        → Applied w t s
        → check_unschedulable env w (selector_labels w) s ≡ (true, t')
        → Calm namespace name w t t'
    -- The stored status is Running or Stopped, and no report to Convex is still to be made.
    settled :
        {t' : List Event} (d : Deployment) (stored : Workload) (s : List Event)
        → Applied w t s
        → (check_unschedulable env w (selector_labels w) s).0 ≡ false
        → Settles namespace name w d stored (check_unschedulable env w (selector_labels w) s).1 t'
        → Calm namespace name w t t'

  finish-Settles :
      (namespace name : String) (w : Workload) (s t' : List Event)
      → let synced = sync_convex env w s in
        finish env namespace name synced.0.0 synced.0.1 synced.1 ≡ (done, t')
        → (d : Deployment) × (stored : Workload) × Settles namespace name w d stored s t'
  unfolding finish
  finish-Settles namespace name w s t' e =
      elim (Result-cases (env.get_deployment synced.1 namespace name)) [
        | inr (x, f) ↦ absurd (ground arith)
        | inl (d, f) ↦ elim (Result-cases (env.update_status (r d).1 (r d).0.0)) [
          | inr (x, g) ↦ absurd (ground arith)
          | inl (stored, g) ↦
              (d, stored, (f, ground arith, ground arith, g, ground arith, ground arith))
        ]
      ]
    where
      synced : (Workload × Bool) × List Event
      synced = sync_convex env w s

      r : Deployment → (Workload × Bool) × List Event
      r d = update_status env synced.0.0 d (got_deployment namespace name ∷ synced.1)

  observe-Calm :
      (namespace name : String) (w : Workload) (t s t' : List Event)
      → Applied w t s
      → observe env namespace name w s ≡ (done, t')
      → Calm namespace name w t t'
  unfolding observe
  observe-Calm namespace name w t s t' applied e =
      elim (Bool-cases (check_unschedulable env w (selector_labels w) s).0) [
        | inl f ↦ given_up s applied (ground arith)
        | inr f ↦
            let (d, stored, settles) =
              finish-Settles namespace name w (check_unschedulable env w (selector_labels w) s).1 t'
                (ground arith) in
            settled d stored s applied f settles
      ]

  -- A failed run carries its error.
  set_failed_with_reason-fails :
      (w : Workload) (reason : Reason) (e : GoError) (t t' : List Event)
      → set_failed_with_reason env w reason e t ≢ (done, t')
  unfolding set_failed_with_reason
  set_failed_with_reason-fails w reason e t t' h = ground arith

  write_failed-fails :
      (w : Workload) (what : String) (e : GoError) (t t' : List Event)
      → write_failed env w what e t ≢ (done, t')
  unfolding write_failed set_failed
  write_failed-fails w what e t t' h =
      ground (arith, set_failed_with_reason-fails w Reason.reconcile_error (errorf what e "") t t')

  apply_objects-Calm :
      (namespace name : String) (w : Workload) (rendered : Rendered) (t t' : List Event)
      → render env.lib w ≡ ok rendered
      → apply_objects env namespace name w rendered t ≡ (done, t')
      → Calm namespace name w t t'
  unfolding apply_objects
  apply_objects-Calm namespace name w rendered t t' known e =
      let first = reconcile_deployment env w rendered t in
      let second = reconcile_service env w rendered first.1 in
      elim (Option-cases first.0) [
        | inr (x, f) ↦
            absurd (write_failed-fails w "reconciling deployment: " x first.1 t' (ground arith))
        | inl f ↦ elim (Option-cases second.0) [
          | inr (x, g) ↦
              absurd (write_failed-fails w "reconciling service: " x second.1 t' (ground arith))
          | inl g ↦
              observe-Calm namespace name w t second.1 t' (rendered, known, f, g, refl)
                (ground arith)
        ]
      ]

  pub reconcile_spec-Calm :
      (namespace name : String) (w : Workload) (t t' : List Event)
      → reconcile_spec env namespace name w t ≡ (done, t')
      → Calm namespace name w t t'
  unfolding reconcile_spec
  reconcile_spec-Calm namespace name w t t' e = elim (Result-cases (render env.lib w)) [
    | inl (rendered, f) ↦ apply_objects-Calm namespace name w rendered t t' f (ground arith)
    | inr (x, f) ↦ absurd (
        set_failed_with_reason-fails w (render_reason env x) (errorf "rendering workload: " x "") t
          t' (ground arith))
  ]
