-- ===== src/Assembly/Telling.antt =====
-- internal/controller, internal/convexclient: the calls of the reconciler that Convex has confirmed.
use ai_cloud_operator.Base.{
  ℕ, String, List, ◌∷◌, none, some, Bool, true, GoError, ErrorKind, is_kind, ◌≡◌, refl,
}
use ai_cloud_operator.Workload.{Workload}
use ai_cloud_operator.Operator.Registration.{Session}
use ai_cloud_operator.Client.Wire
use ai_cloud_operator.Client.Http
use ai_cloud_operator.Client.Delegations
use ai_cloud_operator.Client.Verdicts.{Answered}
use ai_cloud_operator.Client.Reports.{
  Foreign, lifecycle_body, report_lifecycle-taken, report_lifecycle-verdict, remove_workload-taken,
  upsert_body, upsert_workload-taken,
}
use ai_cloud_operator.Controller.World.{
  Env, Event, WorkloadInfo, upserted_workload, reported_lifecycle, removed_workload, LifecyclePhase,
}
use ai_cloud_operator.Controller.Sync.{
  workload_id_of, info_of, notify_upserted, notify_lifecycle, notify_removed,
}
use ai_cloud_operator.Assembly.Reconciler.{requests, attached}

-- The one history is the other, or what came before.
pub data Within (t : List Event) : List Event → Type 0 where
  at_once : {s : List Event} → s ≡ t → Within t s
  before : {e : Event} {s : List Event} → Within t s → Within t (e ∷ s)

pub Within-trans : {t s r : List Event} → Within t s → Within s r → Within t r
Within-trans x (at_once e) = rw e x
Within-trans x (before y) = before (Within-trans x y)

module _ (http : Http.Env) (session : List Event → Session) (base : Env) where
  -- In this history is this call, and Convex has answered its request, sent with the token of that
  -- time, with this status.
  pub record Confirmed (s : List Event) (event : Event) (path : String) (body : Wire.Body)
      (status : ℕ) : Type 0 where
    pub before : List Event
    pub made : Within (event ∷ before) s
    pub response : Http.Response
    pub answered :
        Answered http
          (requests http session base before)
          path
          (some (session before).tokens.heartbeat_token)
          body
          response
    pub code : response.status ≡ status

  pub Confirmed-later :
      {s r : List Event} {event : Event} {path : String} {body : Wire.Body} {status : ℕ}
      → Within s r
      → Confirmed s event path body status
      → Confirmed r event path body status
  Confirmed-later w c = record {
    before = c.before;
    made = Within-trans c.made w;
    response = c.response;
    answered = c.answered;
    code = c.code;
  }

  abbrev pub env : Env
  env = attached http session base

  pub notify_removed-Confirmed :
      (namespace name : String) (t : List Event)
      → (notify_removed env namespace name t).0 ≡ none
      → Confirmed
          (notify_removed env namespace name t).1
          (removed_workload name namespace)
          "/operators/workloads/remove"
          (Wire.remove name namespace)
          200
  unfolding notify_removed Delegations.remove_workload
  notify_removed-Confirmed namespace name t e =
      let (r, a, status) =
        remove_workload-taken http (requests http session base t) (session t).tokens.heartbeat_token
          name namespace e in
      record { before = t; made = at_once refl; response = r; answered = a; code = status }

  abbrev pub OwnerConfirmed : List Event → Workload → Type 0
  OwnerConfirmed s w =
      Confirmed s (upserted_workload (info_of w)) "/operators/workloads/upsert"
        (upsert_body http (info_of w)) 200

  pub notify_upserted-Confirmed :
      (w : Workload) (t : List Event)
      → (notify_upserted env w t).0 ≡ none
      → OwnerConfirmed (notify_upserted env w t).1 w
  unfolding notify_upserted Delegations.upsert_workload
  notify_upserted-Confirmed w t e =
      let (r, a, status) =
        upsert_workload-taken http (requests http session base t) (session t).tokens.heartbeat_token
          (info_of w) e in
      record { before = t; made = at_once refl; response = r; answered = a; code = status }

  abbrev pub ReportConfirmed :
      List Event → WorkloadInfo → LifecyclePhase → String → Bool → ℕ → Type 0
  ReportConfirmed s info phase reason retryable status =
      Confirmed s (reported_lifecycle info.name info.workload_id phase reason retryable)
        "/operators/workloads/lifecycle"
        (lifecycle_body http info.name info.workload_id phase reason retryable) status

  pub notify_lifecycle-Confirmed :
      (w : Workload) (phase : LifecyclePhase) (reason : String) (retryable : Bool) (t : List Event)
      → (notify_lifecycle env w phase reason retryable t).0 ≡ none
      → ReportConfirmed
          (notify_lifecycle env w phase reason retryable t).1
          (info_of w)
          phase
          reason
          retryable
          200
  unfolding notify_lifecycle Delegations.report_lifecycle
  notify_lifecycle-Confirmed w phase reason retryable t e =
      let (r, a, status) =
        (report_lifecycle-taken http (requests http session base t)
            (session t).tokens.heartbeat_token w.name (workload_id_of w) phase reason retryable).0
          e in
      record { before = t; made = at_once refl; response = r; answered = a; code = status }

  pub notify_lifecycle-stale :
      Foreign http
      → (w : Workload) (phase : LifecyclePhase) (reason : String) (retryable : Bool)
        (t : List Event) (x : GoError)
      → (notify_lifecycle env w phase reason retryable t).0 ≡ some x
      → is_kind ErrorKind.lifecycle_stale x ≡ true
      → ReportConfirmed
          (notify_lifecycle env w phase reason retryable t).1
          (info_of w)
          phase
          reason
          retryable
          409
  unfolding notify_lifecycle Delegations.report_lifecycle
  notify_lifecycle-stale foreign w phase reason retryable t x e k =
      let (r, a, status) =
        (report_lifecycle-verdict http (requests http session base t)
            (session t).tokens.heartbeat_token w.name (workload_id_of w) phase reason retryable
            foreign).1.0
          (x, e, k) in
      record { before = t; made = at_once refl; response = r; answered = a; code = status }
