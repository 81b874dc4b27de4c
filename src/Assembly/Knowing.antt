-- ===== src/Assembly/Knowing.antt =====
-- internal/controller, internal/convexclient: why `Reconcile` may stop asking to be run again.
use ai_cloud_operator.Base.{
  String, List, ◌∷◌, Option, Bool, true, false, GoError, ErrorKind, is_kind, ok, err, subst, ◌≡◌,
  ◌≢◌, refl, sym, ap, ◌∙◌, inl, inr, ◌⊎◌,
}
use ai_cloud_operator.Kube.{Deployment}
use ai_cloud_operator.Workload.{Workload, WorkloadStatus, Phase, ConditionType}
use ai_cloud_operator.Operator.Registration.{Session}
use ai_cloud_operator.Client.Wire
use ai_cloud_operator.Client.Http
use ai_cloud_operator.Client.Reports.{Foreign}
use ai_cloud_operator.Controller.World.{
  Env, Event, LifecyclePhase, ConditionLaws, removed_workload, deleted_workload, updated_status,
  got_workload, got_deployment,
}
use ai_cloud_operator.Controller.Render.{selector_labels}
use ai_cloud_operator.Controller.Sync.{
  info_of, is_synced, sync_convex, sync_lifecycle, settle, observed, update_status,
}
use ai_cloud_operator.Controller.Reconcile.{done, is_settled, capacity_reason, workload_finalizer}
use ai_cloud_operator.Controller.Loop.{reconcile}
use ai_cloud_operator.Controller.Releasing.{check_unschedulable-Released}
use ai_cloud_operator.Controller.Settling.{settle_lem, update_status-StatusLaw}
use ai_cloud_operator.Controller.Calm.{Calm, Settles, given_up, settled}
use ai_cloud_operator.Controller.Ending.{Held, gone, unheld, let_go, calm, reconcile-Quiet}
use ai_cloud_operator.Controller.Steady.{settled_by, lifecycle_of, update_status-Settled}
use ai_cloud_operator.Assembly.Telling.{
  Within, at_once, before, Within-trans, Confirmed, Confirmed-later, OwnerConfirmed,
  ReportConfirmed, env, notify_removed-Confirmed, notify_lifecycle-Confirmed,
}
use ai_cloud_operator.Assembly.Recording.{
  sync_lifecycle-Within, sync_convex-Confirmed, sync_lifecycle-Confirmed, sync_convex-lifecycle,
  sync_convex-info,
}

module _ (http : Http.Env) (session : List Event → Session) (base : Env) where
  abbrev whole : Env
  whole = env http session base

  -- In this history a report of the phase is taken, or called out of date; or one was recorded
  -- before.
  abbrev pub PhaseTold : List Event → Workload → Phase → Type 0
  PhaseTold s w p =
      (is_synced whole ConditionType.convex_lifecycle_synced w ≡ true)
      ⊎ (ReportConfirmed http session base s (info_of w) (lifecycle_of p) "" false 200
          ⊎ ReportConfirmed http session base s (info_of w) (lifecycle_of p) "" false 409)

  -- In this history the ownership info is taken; or it was recorded before.
  abbrev pub OwnerTold : List Event → Workload → Type 0
  OwnerTold s w =
      (is_synced whole ConditionType.convex_synced w ≡ true) ⊎ OwnerConfirmed http session base s w

  PhaseTold-later :
      {s r : List Event} (w : Workload) (p : Phase) → Within s r → PhaseTold s w p → PhaseTold r w p
  PhaseTold-later w p x (inl recorded) = inl recorded
  PhaseTold-later w p x (inr (inl taken)) = inr (inl (Confirmed-later http session base x taken))
  PhaseTold-later w p x (inr (inr stale)) = inr (inr (Confirmed-later http session base x stale))

  OwnerTold-later : {s r : List Event} (w : Workload) → Within s r → OwnerTold s w → OwnerTold r w
  OwnerTold-later w x (inl recorded) = inl recorded
  OwnerTold-later w x (inr taken) = inr (Confirmed-later http session base x taken)

  -- Why a run from the history `t` may end with neither an error nor a wish to be run again.
  pub data Known (namespace name : String) (t t' : List Event) : Type 0 where
    -- There is no such object.
    absent :
        (e : GoError)
        → base.get_workload t namespace name ≡ err e
        → is_kind ErrorKind.not_found e ≡ true
        → Known namespace name t t'
    -- It is being deleted without the operator's finalizer.
    unowned :
        (w : Workload)
        → base.get_workload t namespace name ≡ ok w
        → w.deleting ≡ true
        → base.contains_finalizer w.finalizers workload_finalizer ≡ false
        → Known namespace name t t'
    -- It is being deleted, and Convex has confirmed its removal.
    removed :
        (w : Workload)
        → base.get_workload t namespace name ≡ ok w
        → w.deleting ≡ true
        → Confirmed http session base t'
            (removed_workload w.name w.namespace)
            "/operators/workloads/remove"
            (Wire.remove w.name w.namespace)
            200
        → Known namespace name t t'
    -- It was given up: the object that the run holds was deleted last, and Convex has confirmed the
    -- report of a failure that may be retried.
    released :
        (w v : Workload) (s before : List Event) (text : String)
        → base.get_workload t namespace name ≡ ok w
        → w.deleting ≡ false
        → Held whole w v (got_workload namespace name ∷ t) s
        → text ≢ ""
        → t' ≡ deleted_workload v ∷ before
        → ReportConfirmed http session base t'
            (info_of v)
            LifecyclePhase.failed
            (capacity_reason text)
            true
            200
        → Known namespace name t t'
    -- The status that was stored last, of the object that the run holds, is Running or Stopped, and
    -- Convex knows its owner and that phase.
    informed :
        (w v sent stored : Workload) (s before : List Event)
        → base.get_workload t namespace name ≡ ok w
        → w.deleting ≡ false
        → Held whole w v (got_workload namespace name ∷ t) s
        → info_of sent ≡ info_of v
        → t' ≡ updated_status sent ∷ before
        → base.update_status before sent ≡ ok stored
        → is_settled sent.status.phase ≡ true
        → OwnerTold t' v
        → PhaseTold t' v sent.status.phase
        → Known namespace name t t'

  -- The API server stores a status as it is sent.
  abbrev pub StoresStatus : Type 0
  StoresStatus =
      (t : List Event) (sent stored : Workload)
      → base.update_status t sent ≡ ok stored
      → stored.status ≡ sent.status

  module _ (laws : ConditionLaws whole) (foreign : Foreign http) (stores : StoresStatus) where
    -- What the reports of a settled phase leave, with the calls that are made.
    update_status-PhaseTold :
        (w : Workload) (d : Deployment) (t : List Event)
        → let r = update_status whole w d t in
          is_settled r.0.0.status.phase ≡ true
          → r.0.1 ≡ true
          → Within t r.1 × PhaseTold r.1 w r.0.0.status.phase
    unfolding settle is_synced
    update_status-PhaseTold w d t h synced = elim (update_status-Settled whole laws w d t h) [
      | settled_by p phase c told kind now again ↦
          let v = observed whole w d p in
          let kept = (settle_lem whole laws v phase c t).0 in
          let same : (update_status whole w d t).0.0.status.phase ≡ p =
            rw now (ap (λ (x : Workload). x.status.phase) kept) in
          let calls : (update_status whole w d t).1 ≡ (sync_lifecycle whole v phase t).1 =
            ap (λ (x : (Workload × Bool) × List Event). x.1) now in
          let reported =
            sync_lifecycle-Confirmed http session base laws foreign v phase t
              (sym (ap (λ (x : (Workload × Bool) × List Event). x.0.1) now) ∙ synced) in
          (
            rw calls (sync_lifecycle-Within http session base laws v phase t),
            rw (calls, same, ← told) reported,
          )
    ]

    same_report :
        (w : Workload) (s r : List Event) (p : Phase)
        → PhaseTold r (sync_convex whole w s).0.0 p
        → PhaseTold r w p
    same_report w s r p (inl recorded) =
        inl (sym (sync_convex-lifecycle http session base laws w s) ∙ recorded)
    same_report w s r p (inr (inl taken)) = inr (
        inl (
          subst (λ i. ReportConfirmed http session base r i (lifecycle_of p) "" false 200)
            (sync_convex-info http session base laws w s) taken))
    same_report w s r p (inr (inr stale)) = inr (
        inr (
          subst (λ i. ReportConfirmed http session base r i (lifecycle_of p) "" false 409)
            (sync_convex-info http session base laws w s) stale))

    settled-Known :
        (namespace name : String) (g w stored : Workload) (d : Deployment) (h s t' t : List Event)
        → base.get_workload t namespace name ≡ ok g
        → g.deleting ≡ false
        → Held whole g w (got_workload namespace name ∷ t) h
        → Settles whole namespace name w d stored s t'
        → Known namespace name t t'
    settled-Known namespace name g w stored d h s t' t got stays held
          (read, synced, told, answered, phase, calls) =
        let owned = sync_convex whole w s in
        let seen = got_deployment namespace name ∷ owned.1 in
        let r = update_status whole owned.0.0 d seen in
        let kept : stored.status ≡ r.0.0.status = stores _ r.0.0 stored answered in
        let final : is_settled r.0.0.status.phase ≡ true =
          ap (λ (x : WorkloadStatus). is_settled x.phase) (sym kept) ∙ phase in
        let (inside, reported) = update_status-PhaseTold owned.0.0 d seen final told in
        let last : Within r.1 t' = rw calls (before (at_once refl)) in
        let same =
          ap info_of (update_status-StatusLaw whole laws owned.0.0 d seen).kept
          ∙ sync_convex-info http session base laws w s in
        informed g w r.0.0 stored h r.1 got stays held same calls answered final
          (OwnerTold-later w (Within-trans (before (at_once refl)) (Within-trans inside last))
            (sync_convex-Confirmed http session base laws w s synced))
          (PhaseTold-later w r.0.0.status.phase last
            (same_report w s r.1 r.0.0.status.phase reported))

    Calm-Known :
        (namespace name : String) (g w : Workload) (s t' t : List Event)
        → base.get_workload t namespace name ≡ ok g
        → g.deleting ≡ false
        → Held whole g w (got_workload namespace name ∷ t) s
        → Calm whole namespace name w s t'
        → Known namespace name t t'
    Calm-Known namespace name g w s t' t got stays held (given_up s' applied gave) =
        let run = check_unschedulable-Released whole w (selector_labels w) s' t' gave in
        let told = ap (λ (x : Option GoError × List Event). x.0) run.told in
        let calls = ap (λ (x : Option GoError × List Event). x.1) run.told in
        released g w s _ run.text got stays held run.says run.order (
          Confirmed-later http session base (rw (run.order, calls) (before (at_once refl))) (
            notify_lifecycle-Confirmed http session base w LifecyclePhase.failed
              (capacity_reason run.text) true _ told))
    Calm-Known namespace name g w s t' t got stays held
          (settled d stored s' applied waits settles) =
        settled-Known namespace name g w stored d s _ t' t got stays held settles

  -- The assembled `Reconcile` ends with neither an error nor a wish to be run again only where there
  -- is no such object; where the object that it reads is being deleted, without the operator's
  -- finalizer or with an answer of 200 by Convex to its removal; where that object, as the run holds
  -- it with its finalizer, is deleted last, with an answer of 200 to the report of a failure that
  -- may be retried; or where the last call stores a status of it that is Running or Stopped, Convex
  -- has answered its ownership info with 200, or its conditions as held record that, and Convex has
  -- answered the report of that phase with 200 or 409, or its conditions as held record that. The
  -- answers are in the history that the run leaves. The API server stores a status as it is sent,
  -- and no error of a library is itself the mark of a report that is out of date.
  pub reconcile-Known :
      ConditionLaws whole
      → Foreign http
      → StoresStatus
      → (namespace name : String) (t t' : List Event)
      → reconcile whole namespace name t ≡ (done, t')
      → Known namespace name t t'
  reconcile-Known laws foreign stores namespace name t t' e =
      elim (reconcile-Quiet whole namespace name t t' e) [
        | gone x f g same ↦ absent x f g
        | unheld w f g h same ↦ unowned w f g h
        | let_go w stored f g h k same ↦ removed w f g (
            Confirmed-later http session base (rw same (before (at_once refl)))
              (notify_removed-Confirmed http session base w.namespace w.name _ h))
        | calm w v s f g held rest ↦
            Calm-Known laws foreign stores namespace name w v s t' t f g held rest
      ]
