-- ===== src/Client/Claims.antt =====
-- internal/convexclient/client.go: what a status of Convex means to a claim and to a report.
use ai_cloud_operator.Base.{
  String, List, Option, none, some, ◌||◌, eqb, GoError, errorf, Result, ok, err, Bool-cases,
  Result-cases, ◌≡◌, refl, sym, ◌∙◌, inl, inr, ◌⊎◌, ◌↔◌, arith,
}
use ai_cloud_operator.Client.Wire
use ai_cloud_operator.Client.Http.{Event, Env, Response, post}
use ai_cloud_operator.Client.Calls.{read_claim, claim_workload, claim_operation}
use ai_cloud_operator.Client.Verdicts.{Answered, Answered-post, response, failure, post-Posted}

module _ (env : Env) where
  read_claim-none :
      {A : Type 0} (what : String) (decode : String → Result A) (r : Response)
      → read_claim env what decode r ≡ ok none
      → (r.status ≡ 404) ⊎ (r.status ≡ 409)
  unfolding read_claim
  read_claim-none what decode r e = elim (Bool-cases (eqb r.status 404)) [
    | inl h ↦ inl (ground arith)
    | inr h ↦ elim (Bool-cases (eqb r.status 409)) [
      | inl k ↦ inr (ground arith)
      | inr k ↦ absurd (elim (Result-cases (decode r.body)) [
        | inl (out, g) ↦ ground arith
        | inr (x, g) ↦ ground arith
      ])
    ]
  ]

  none-read_claim :
      {A : Type 0} (what : String) (decode : String → Result A) (r : Response)
      → (r.status ≡ 404) ⊎ (r.status ≡ 409)
      → read_claim env what decode r ≡ ok none
  unfolding read_claim
  none-read_claim what decode r (inl f) = rw (read_claim, f) refl
  none-read_claim what decode r (inr f) = rw (read_claim, f) refl

  read_claim-some :
      {A : Type 0} (what : String) (decode : String → Result A) (r : Response) (out : A)
      → read_claim env what decode r ≡ ok (some out)
      → (r.status ≡ 200) × (decode r.body ≡ ok out)
  unfolding read_claim
  read_claim-some what decode r out e = elim (Bool-cases (eqb r.status 200)) [
    | inl h ↦ elim (Result-cases (decode r.body)) [
      | inl (got, g) ↦ let same : got ≡ out = ground arith in (ground arith, rw (← same) g)
      | inr (x, g) ↦ absurd (ground arith)
    ]
    | inr h ↦ absurd (elim (Bool-cases (eqb r.status 404 || eqb r.status 409)) [
      | inl k ↦ ground arith
      | inr k ↦ ground arith
    ])
  ]

  some-read_claim :
      {A : Type 0} (what : String) (decode : String → Result A) (r : Response) (out : A)
      → r.status ≡ 200
      → decode r.body ≡ ok out
      → read_claim env what decode r ≡ ok (some out)
  unfolding read_claim
  some-read_claim what decode r out f g = rw (read_claim, f, g) refl

  -- A claim did not land exactly where Convex has answered with 404 or 409, and it is granted
  -- exactly where Convex has answered with 200 and a body that decodes to it.
  abbrev pub ClaimVerdict :
      {A : Type 0}
      → List Event
      → String
      → String
      → Wire.Body
      → (String → Result A)
      → Result (Option A)
      → Type 0
  ClaimVerdict {A} t path token body decode x =
      ((x ≡ ok none) ↔ (
        (r : Response) × Answered env t path (some token) body r
        × ((r.status ≡ 404) ⊎ (r.status ≡ 409))))
      × ((c : A)
          → (x ≡ ok (some c)) ↔ (
              (r : Response) × Answered env t path (some token) body r
              × (r.status ≡ 200)
              × (decode r.body ≡ ok c)))

  read_claim-ClaimVerdict :
      {A : Type 0} (t : List Event) (what path token : String) (body : Wire.Body)
      (decode : String → Result A) (x : Result (Option A))
      → ((e : GoError) → (post env what path (some token) body t).0 ≡ err e → x ≡ err e)
      → ((r : Response)
          → (post env what path (some token) body t).0 ≡ ok r
          → x ≡ read_claim env what decode r)
      → ClaimVerdict t path token body decode x
  read_claim-ClaimVerdict t what path token body decode x fail good =
      elim (post-Posted env t what path (some token) body) [
        | response r f a ↦
            let same = good r f in
            (
              (
                λ e. (r, a, read_claim-none what decode r (sym same ∙ e)),
                λ (q, b, status).
                    good q (Answered-post env t what path (some token) body q b)
                    ∙ none-read_claim what decode q status,
              ),
              λ c. (
                λ e.
                    let (status, decoded) = read_claim-some what decode r c (sym same ∙ e) in
                    (r, a, status, decoded),
                λ (q, b, status, decoded).
                    good q (Answered-post env t what path (some token) body q b)
                    ∙ some-read_claim what decode q c status decoded,
              ),
            )
        | failure before after y f ↦
            let lost = fail (errorf before y after) f in
            let silent : (q : Response) → Answered env t path (some token) body q → ⊥ = λ q b.
              let known = Answered-post env t what path (some token) body q b in ground arith in
            (
              (λ e. absurd (ground arith), λ (q, b, status). absurd (silent q b)),
              λ c. (λ e. absurd (ground arith), λ (q, b, status, decoded). absurd (silent q b)),
            )
      ]

  -- Each of the two claims did not land exactly where Convex has answered it with 404 or 409, and
  -- is granted exactly where Convex has answered it with 200 and a body that decodes to it; every
  -- other outcome is an error.
  pub claims-ClaimVerdict :
      (t : List Event) (token id : String)
      → ClaimVerdict t "/operators/workloads/claim" token
          (Wire.claim_workload id)
          env.decode_claimed_workload
          (claim_workload env token id t).0
        × ClaimVerdict t "/operators/workloads/claim-operation" token
            (Wire.claim_operation id)
            env.decode_claimed_operation
            (claim_operation env token id t).0
  unfolding claim_workload claim_operation
  claims-ClaimVerdict t token id = (
    read_claim-ClaimVerdict t "claim workload" "/operators/workloads/claim" token
        (Wire.claim_workload id) env.decode_claimed_workload (claim_workload env token id t).0
        (λ e f. rw (claim_workload, f) refl) (λ r f. rw (claim_workload, f) refl),
    read_claim-ClaimVerdict t "claim operation" "/operators/workloads/claim-operation" token
        (Wire.claim_operation id) env.decode_claimed_operation (claim_operation env token id t).0
        (λ e f. rw (claim_operation, f) refl) (λ r f. rw (claim_operation, f) refl),
  )
