-- ===== src/Assembly/Backing.antt =====
-- cmd/main.go, internal/convexclient: what the writes of the assembled operator rest on.
use ai_cloud_operator.Base.{ℕ, String, List, [], ◌∷◌, some, ◌≡◌, Result, ok}
use ai_cloud_operator.Client.Wire
use ai_cloud_operator.Client.Http
use ai_cloud_operator.Client.Verdicts.{Answered}
use ai_cloud_operator.Client.Claims.{claims-ClaimVerdict}
use ai_cloud_operator.Operator.World.{
  Event, ClaimedOperation, created_workload, updated_workload, deleted_workload,
}
use ai_cloud_operator.Operator.Registration.{Session}
use ai_cloud_operator.Operator.Serving.{start}
use ai_cloud_operator.Operator.Ticks.{IsClaimed, IsJust, IsOrderly}
use ai_cloud_operator.Operator.Operations.{IsGranted, IsChange, IsDue, IsDutiful}
use ai_cloud_operator.Operator.Duties.{start-IsFaithful}
use ai_cloud_operator.Assembly.Parts.{Parts, requests, assembled}

module _ (parts : Parts) where
  open parts use {http}

  -- Convex has answered this claim with 200 and a body that decodes to what was granted.
  pub record Exchange {A : Type 0} (path : String) (body : Wire.Body) (decode : String → Result A)
      (granted : A) (before : List Event) (token : String) : Type 0 where
    pub response : Http.Response
    pub answered : Answered http (requests parts before) path (some token) body response
    pub status : response.status ≡ 200
    pub decoded : decode response.body ≡ ok granted

  abbrev pub OperationExchange :
      (op : ClaimedOperation) {t : List Event} → IsGranted (assembled parts) op t → Type 0
  OperationExchange op g =
      Exchange "/operators/workloads/claim-operation" (Wire.claim_operation g.id)
        http.decode_claimed_operation op g.before g.token

  -- A write of a resource comes right after such an exchange, and does what was granted.
  abbrev pub IsBacked : Event → List Event → Type 0
  IsBacked (created_workload w) t =
      (j : IsClaimed (assembled parts) w t) × Exchange "/operators/workloads/claim"
        (Wire.claim_workload j.id) http.decode_claimed_workload j.claim j.before j.token
  IsBacked (updated_workload w) t =
      (c : IsChange (assembled parts) w t) × OperationExchange c.op c.claim
  IsBacked (deleted_workload name) t =
      (op : ClaimedOperation) × (g : IsGranted (assembled parts) op t) × (op.operation ≡ "destroy")
      × (op.name ≡ name)
      × OperationExchange op g
  IsBacked _ t = Unit

  abbrev pub AllBacked : List Event → Type 0
  AllBacked [] = Unit
  AllBacked (e ∷ t) = IsBacked e t × AllBacked t

  granted-OperationExchange :
      (op : ClaimedOperation) {t : List Event} (g : IsGranted (assembled parts) op t)
      → OperationExchange op g
  granted-OperationExchange op g =
      let verdict = (claims-ClaimVerdict http (requests parts g.before) g.token g.id).1 in
      let (r, a, status, decoded) = (verdict.1 op).0 g.granted in
      record { response = r; answered = a; status = status; decoded = decoded }

  IsDue-IsBacked :
      (e : Event) (t : List Event)
      → IsJust (assembled parts) e t
      → IsDue (assembled parts) e t
      → IsBacked e t
  IsDue-IsBacked (created_workload w) t j due =
      let verdict = (claims-ClaimVerdict http (requests parts j.before) j.token j.id).0 in
      let (r, a, status, decoded) = (verdict.1 j.claim).0 j.granted in
      (j, record { response = r; answered = a; status = status; decoded = decoded })
  IsDue-IsBacked (updated_workload w) t j c = (c, granted-OperationExchange c.op c.claim)
  IsDue-IsBacked (deleted_workload name) t j (op, g, kind, same) =
      (op, g, kind, same, granted-OperationExchange op g)
  IsDue-IsBacked _ t j due = tt

  IsFaithful-AllBacked :
      (t : List Event) → IsOrderly (assembled parts) t → IsDutiful (assembled parts) t → AllBacked t
  IsFaithful-AllBacked [] o d = tt
  IsFaithful-AllBacked (e ∷ t) (just, o) (due, d) =
      (IsDue-IsBacked e t just due, IsFaithful-AllBacked t o d)

  -- In a run of the assembled operator, of any number of ticks, every write of a Workload comes
  -- right after a request that Convex has answered with 200 and a body that grants it: a creation
  -- after a claim of new work, for a template at its present version, with the template, the user,
  -- the subdomain and the id of the claim, and the JSON of its config, if it has one; a deletion
  -- after a claim to destroy that Workload; an update, but for the reading of the object between
  -- them, after a claim to redeploy, stop or resume it, with only the fields of that operation
  -- changed, and the JSON of the config of a redeploy.
  pub start-AllBacked : (ticks : ℕ) (s : Session) → AllBacked (start (assembled parts) ticks s []).1
  start-AllBacked ticks s =
      let (o, d) = start-IsFaithful (assembled parts) ticks s [] (tt, tt) in
      IsFaithful-AllBacked _ o d
