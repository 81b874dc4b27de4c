-- ===== src/Controller/Releasing.antt =====
-- internal/controller/workload_controller.go: giving up a Workload that this cluster cannot schedule.
use ai_cloud_operator.Base.{
  String, List, ◌∷◌, Option, none, some, true, false, eq_iff, ◌≡◌, ◌≢◌, ◌⊎◌, inl, inr, Result-cases,
  ok, GoError, ErrorKind, is_kind, Option-cases, Any, arith, if◌then◌else◌,
}
use ai_cloud_operator.Kube.{Pod}
use ai_cloud_operator.Workload.{Workload}
use ai_cloud_operator.Controller.World.{
  Env, Event, LifecyclePhase, Labels, listed_pods, deleted_workload, reported_lifecycle,
}
use ai_cloud_operator.Controller.Render.{is_zero, desired_replica_count}
use ai_cloud_operator.Controller.Sync.{notify_lifecycle, workload_id_of}
use ai_cloud_operator.Controller.Reconcile.{
  stuck_message, capacity_reason, release_claim, check_unschedulable, is_running,
}
use ai_cloud_operator.Controller.Stuck.{
  IsStuck, StuckWith, stuck_message_lem, Explains, stuck_message-ne,
}

module _ (env : Env) (w : Workload) (selector : Labels) (t : List Event) where
  abbrev after_list : List Event
  after_list = listed_pods w.namespace selector ∷ t

  -- The history once Convex has been told, which happens only where it is attached.
  abbrev after_report : String → List Event
  after_report text =
      if env.convex_attached
      then reported_lifecycle w.name (workload_id_of w) LifecyclePhase.failed (capacity_reason text)
          true
        ∷ after_list
      else after_list

  -- The run that gives a Workload up.
  pub record Released (t' : List Event) : Type 0 where
    pub active : w.spec.suspended ≡ false
    pub wanted : is_zero (desired_replica_count w) ≡ false
    pub waiting : is_running w.status.phase ≡ false
    pub pods : List Pod
    pub text : String
    pub listed : env.list_pods t w.namespace selector ≡ ok pods
    pub says : text ≢ ""
    pub stuck : StuckWith (env.now after_list) pods text
    pub told :
        (notify_lifecycle env w LifecyclePhase.failed (capacity_reason text) true after_list)
        ≡ (none, after_report text)
    pub gone :
        (env.delete_workload (after_report text) w ≡ none)
        ⊎ ((e : GoError) × (env.delete_workload (after_report text) w ≡ some e)
            × (is_kind ErrorKind.not_found e ≡ true))
    pub order : t' ≡ deleted_workload w ∷ after_report text

  notify_after :
      (text : String)
      → (notify_lifecycle env w LifecyclePhase.failed (capacity_reason text) true after_list).1
        ≡ after_report text
  unfolding notify_lifecycle
  notify_after text = ground arith

  scanned :
      (t' : List Event)
      → check_unschedulable env w selector t ≡ (true, t')
      → (pods : List Pod) × (env.list_pods t w.namespace selector ≡ ok pods)
        × (stuck_message (env.now after_list) pods "" ≢ "")
        × (release_claim env w (stuck_message (env.now after_list) pods "") after_list ≡ (true, t'))
  unfolding check_unschedulable
  scanned t' e = elim (Result-cases (env.list_pods t w.namespace selector)) [
    | inl (pods, f) ↦
        let text = stuck_message (env.now after_list) pods "" in
        (pods, f, λ empty. ground (arith, eq_iff text ""), ground arith)
    | inr (x, f) ↦ absurd (ground arith)
  ]

  claim_released :
      (text : String) (t' : List Event)
      → release_claim env w text after_list ≡ (true, t')
      → ((notify_lifecycle env w LifecyclePhase.failed (capacity_reason text) true after_list).0
          ≡ none)
        × ((env.delete_workload (after_report text) w ≡ none)
            ⊎ ((e : GoError) × (env.delete_workload (after_report text) w ≡ some e)
                × (is_kind ErrorKind.not_found e ≡ true)))
        × (t' ≡ deleted_workload w ∷ after_report text)
  unfolding release_claim
  claim_released text t' e = elim (Option-cases told.0) [
    | inr (x, f) ↦ absurd (ground arith)
    | inl f ↦ elim (Option-cases (env.delete_workload (after_report text) w)) [
      | inl g ↦ (f, inl g, ground (arith, notify_after text))
      | inr (x, g) ↦
          (f, inr (x, g, ground (arith, notify_after text)), ground (arith, notify_after text))
    ]
  ]
    where
      told : Option GoError × List Event
      told = notify_lifecycle env w LifecyclePhase.failed (capacity_reason text) true after_list

  -- `checkUnschedulable` gives a Workload up only when it is wanted and not running, a pod that the
  -- server lists for its labels has been stuck for the grace period with a message, Convex (where
  -- it is attached) has taken the retryable failure report before the deletion was asked for, and
  -- the deletion has succeeded or found nothing; no other call is made.
  pub check_unschedulable-Released :
      (t' : List Event) → check_unschedulable env w selector t ≡ (true, t') → Released t'
  unfolding check_unschedulable
  check_unschedulable-Released t' e =
      let (pods, listed, says, r) = scanned t' e in
      let (told, gone, order) = claim_released _ t' r in
      record {
        active = ground arith;
        wanted = ground arith;
        waiting = ground arith;
        pods = pods;
        text = stuck_message (env.now after_list) pods "";
        listed = listed;
        says = says;
        stuck = elim (stuck_message_lem (env.now after_list) pods "") [
          | inl empty ↦ absurd (says empty)
          | inr s ↦ s
        ];
        told = ground (arith, notify_after (stuck_message (env.now after_list) pods ""), told);
        gone = gone;
        order = order;
      }

  -- A Workload that is wanted and not running, with a pod stuck for the grace period, is given up
  -- when every stuck condition carries a message, Convex takes the report and the deletion succeeds.
  pub check_unschedulable_gives_up :
      (pods : List Pod)
      → w.spec.suspended ≡ false
      → is_zero (desired_replica_count w) ≡ false
      → is_running w.status.phase ≡ false
      → env.list_pods t w.namespace selector ≡ ok pods
      → Explains (env.now after_list) pods
      → Any (λ p. Any (IsStuck (env.now after_list)) p.conditions) pods
      → ((text : String)
          → (notify_lifecycle env w LifecyclePhase.failed (capacity_reason text) true after_list).0
            ≡ none)
      → ((t'' : List Event) → env.delete_workload t'' w ≡ none)
      → (check_unschedulable env w selector t).0 ≡ true
  unfolding check_unschedulable release_claim
  check_unschedulable_gives_up pods active wanted waiting listed says stuck told gone =
      let text = stuck_message (env.now after_list) pods "" in
      let ne = stuck_message-ne (env.now after_list) pods "" says (inr stuck) in
      let taken = told text in
      let removed = gone (after_report text) in ground (arith, eq_iff text "", notify_after text)
