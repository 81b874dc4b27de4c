-- ===== src/Client/Verdicts.antt =====
-- internal/convexclient/client.go: what a status of Convex means to the callers.
use ai_cloud_operator.Base.{
  String, List, [], ◌∷◌, Option, none, some, true, eqb, GoError, errorf, Result, ok, err, concat,
  Option-cases, Bool-cases, Result-cases, ◌≡◌, refl, sym, ◌∙◌, inl, inr, ◌⊎◌, ◌↔◌, arith,
}
use ai_cloud_operator.Capacity.Tracker.{Snapshot}
use ai_cloud_operator.Operator.World.{UsageSnapshot}
use ai_cloud_operator.Operator.Registration.{is_unauthorized}
use ai_cloud_operator.Client.Wire
use ai_cloud_operator.Client.Http.{Event, Env, Response, request_to, post, bad_status}
use ai_cloud_operator.Client.Calls.{unauthorized, capacity_of, read_heartbeat, heartbeat}

module _ (env : Env) where
  -- The request with this body was sent, and Convex has answered it.
  pub record Answered (t : List Event) (path : String) (bearer : Option String) (body : Wire.Body)
      (response : Response) : Type 0 where
    pub raw : String
    pub encoded : env.encode body ≡ ok raw
    pub valid : env.url_fault (concat (env.config.base_url ∷ path ∷ [])) ≡ none
    pub answered : env.send t (request_to env path bearer raw) ≡ ok response

  pub Answered-post :
      (t : List Event) (what path : String) (bearer : Option String) (body : Wire.Body)
      (r : Response)
      → Answered t path bearer body r
      → (post env what path bearer body t).0 ≡ ok r
  unfolding post
  Answered-post t what path bearer body r a =
      let x = a.encoded in let y = a.valid in let z = a.answered in rw (post, x, y, z) refl

  -- The ways in which the first steps of a request end.
  pub data Posted (t : List Event) (path : String) (bearer : Option String) (body : Wire.Body)
      : Result Response → Type 0 where
    response :
        {x : Result Response} (r : Response)
        → x ≡ ok r
        → Answered t path bearer body r
        → Posted t path bearer body x
    failure :
        {x : Result Response} (before after : String) (e : GoError)
        → x ≡ err (errorf before e after)
        → Posted t path bearer body x

  pub post-Posted :
      (t : List Event) (what path : String) (bearer : Option String) (body : Wire.Body)
      → Posted t path bearer body (post env what path bearer body t).0
  unfolding post
  post-Posted t what path bearer body = elim (Result-cases (env.encode body)) [
    | inr (e, f) ↦
        failure (concat ("marshaling " ∷ what ∷ " request" ∷ ": " ∷ [])) "" e (rw (post, f) refl)
    | inl (raw, f) ↦
        elim (Option-cases (env.url_fault (concat (env.config.base_url ∷ path ∷ [])))) [
          | inr (e, g) ↦
              failure (concat ("building " ∷ what ∷ " request" ∷ ": " ∷ [])) "" e
                (rw (post, f, g) refl)
          | inl g ↦ elim (Result-cases (env.send t (request_to env path bearer raw))) [
            | inr (e, h) ↦
                failure (concat ("calling " ∷ what ∷ "" ∷ ": " ∷ [])) "" e (rw (post, f, g, h) refl)
            | inl (r, h) ↦
                response r (rw (post, f, g, h) refl)
                  (record { raw = raw; encoded = f; valid = g; answered = h })
          ]
        ]
  ]

  abbrev pub heartbeat_body : Option Snapshot → Option UsageSnapshot → Wire.Body
  heartbeat_body snap live =
      Wire.heartbeat
        (record { name = env.config.operator_name; resource_capacity = capacity_of snap live })

  read_heartbeat-unauthorized :
      (r : Response) (e : GoError)
      → read_heartbeat env r ≡ err e
      → is_unauthorized e ≡ true
      → (r.status ≡ 401) ⊎ (r.status ≡ 410)
  unfolding read_heartbeat is_unauthorized bad_status
  read_heartbeat-unauthorized r e f u = elim (Bool-cases (eqb r.status 401)) [
    | inl h ↦ inl (ground arith)
    | inr h ↦ elim (Bool-cases (eqb r.status 410)) [
      | inl k ↦ inr (ground arith)
      | inr k ↦ absurd (elim (Result-cases (env.decode_heartbeat r.body)) [
        | inl (out, g) ↦ ground arith
        | inr (x, g) ↦ ground arith
      ])
    ]
  ]

  unauthorized-read_heartbeat :
      (r : Response) → (r.status ≡ 401) ⊎ (r.status ≡ 410) → read_heartbeat env r ≡ err unauthorized
  unfolding read_heartbeat
  unauthorized-read_heartbeat r (inl f) = rw (read_heartbeat, f) refl
  unauthorized-read_heartbeat r (inr f) = rw (read_heartbeat, f) refl

  heartbeat-answer :
      (t : List Event) (token : String) (snap : Option Snapshot) (live : Option UsageSnapshot)
      (r : Response)
      → Answered t "/operators/heartbeat" (some token) (heartbeat_body snap live) r
      → (heartbeat env token snap live t).0 ≡ read_heartbeat env r
  unfolding heartbeat
  heartbeat-answer t token snap live r a =
      let known =
        Answered-post t "heartbeat" "/operators/heartbeat" (some token) (heartbeat_body snap live) r
          a in
      rw (heartbeat, known) refl

  -- The Runnable takes a failed heartbeat as a rejected token exactly where Convex has answered it
  -- with 401 or 410; no failure to build, send or read it is taken so.
  pub heartbeat-unauthorized_iff :
      (t : List Event) (token : String) (snap : Option Snapshot) (live : Option UsageSnapshot)
      → ((e : GoError) × ((heartbeat env token snap live t).0 ≡ err e) × (is_unauthorized e ≡ true))
        ↔ ((r : Response) × Answered t "/operators/heartbeat"
              (some token)
              (heartbeat_body snap live)
              r
            × ((r.status ≡ 401) ⊎ (r.status ≡ 410)))
  unfolding heartbeat is_unauthorized
  heartbeat-unauthorized_iff t token snap live = (
    λ (e, f, u).
        elim (post-Posted t "heartbeat" "/operators/heartbeat" (some token)
          (heartbeat_body snap live)) [
            | response r g a ↦ (
              r,
              a,
              read_heartbeat-unauthorized r e (sym (heartbeat-answer t token snap live r a) ∙ f) u,
            )
            | failure before after x g ↦ absurd (ground arith)
          ],
    λ (r, a, status). (
      unauthorized,
      heartbeat-answer t token snap live r a ∙ unauthorized-read_heartbeat r status,
      refl,
    ),
  )
