-- ===== src/Client/Reports.antt =====
-- internal/convexclient/client.go: what a status of Convex means to a lifecycle report.
use ai_cloud_operator.Base.{
  String, List, [], ◌∷◌, Option, none, some, Bool, true, false, eqb, GoError, errorf, ErrorKind,
  ErrorKind-discrete, is_kind, Result, ok, err, concat, Option-cases, Bool-cases, Result-cases, ◌≡◌,
  refl, sym, ◌∙◌, inl, inr, ◌↔◌, arith,
}
use ai_cloud_operator.Controller.World.{LifecyclePhase, WorkloadInfo}
use ai_cloud_operator.Client.Wire
use ai_cloud_operator.Client.Http.{Event, Env, Request, Response, request_to, post, bad_status}
use ai_cloud_operator.Client.Calls.{
  lifecycle_stale, accepted, read_lifecycle, report_lifecycle, remove_workload, upsert_workload,
}
use ai_cloud_operator.Client.Verdicts.{Answered, Answered-post, response, failure, post-Posted}

module _ (env : Env) where
  -- No error of JSON, of a URL or of the transport is the client's own ErrLifecycleStale.
  pub record Foreign : Type 0 where
    pub encoding :
        (body : Wire.Body) (e : GoError)
        → env.encode body ≡ err e
        → is_kind ErrorKind.lifecycle_stale e ≡ false
    pub building :
        (url : String) (e : GoError)
        → env.url_fault url ≡ some e
        → is_kind ErrorKind.lifecycle_stale e ≡ false
    pub sending :
        (t : List Event) (q : Request) (e : GoError)
        → env.send t q ≡ err e
        → is_kind ErrorKind.lifecycle_stale e ≡ false

  post-foreign :
      (t : List Event) (what path : String) (bearer : Option String) (body : Wire.Body)
      (e : GoError)
      → Foreign
      → (post env what path bearer body t).0 ≡ err e
      → is_kind ErrorKind.lifecycle_stale e ≡ false
  unfolding post is_kind
  post-foreign t what path bearer body e laws f = elim (Result-cases (env.encode body)) [
    | inr (x, g) ↦ let law = laws.encoding body x g in ground arith
    | inl (raw, g) ↦
        elim (Option-cases (env.url_fault (concat (env.config.base_url ∷ path ∷ [])))) [
          | inr (x, h) ↦
              let law = laws.building (concat (env.config.base_url ∷ path ∷ [])) x h in ground arith
          | inl h ↦ elim (Result-cases (env.send t (request_to env path bearer raw))) [
            | inr (x, k) ↦
                let law = laws.sending t (request_to env path bearer raw) x k in ground arith
            | inl (r, k) ↦ absurd (ground arith)
          ]
        ]
  ]

  abbrev pub lifecycle_body : String → String → LifecyclePhase → String → Bool → Wire.Body
  lifecycle_body name workload_id phase reason retryable = Wire.lifecycle (record {
    name = name;
    workload_id = workload_id;
    phase = phase;
    reason = reason;
    retryable = retryable;
  })

  read_lifecycle-none : (r : Response) → read_lifecycle env r ≡ none → r.status ≡ 200
  unfolding read_lifecycle accepted
  read_lifecycle-none r e = ground arith

  none-read_lifecycle : (r : Response) → r.status ≡ 200 → read_lifecycle env r ≡ none
  unfolding read_lifecycle accepted
  none-read_lifecycle r e = rw (read_lifecycle, e) refl

  read_lifecycle-stale :
      (r : Response) (e : GoError)
      → read_lifecycle env r ≡ some e
      → is_kind ErrorKind.lifecycle_stale e ≡ true
      → r.status ≡ 409
  unfolding read_lifecycle accepted bad_status is_kind ErrorKind-discrete
  read_lifecycle-stale r e f k = elim (Bool-cases (eqb r.status 409)) [
    | inl h ↦ ground arith
    | inr h ↦ absurd (ground arith)
  ]

  stale-read_lifecycle :
      (r : Response) → r.status ≡ 409 → read_lifecycle env r ≡ some lifecycle_stale
  unfolding read_lifecycle
  stale-read_lifecycle r e = rw (read_lifecycle, e) refl

  module _ (t : List Event) (token name workload_id : String) (phase : LifecyclePhase)
      (reason : String) (retryable : Bool) where
    abbrev SentReport : Response → Type 0
    SentReport r =
        Answered env t "/operators/workloads/lifecycle" (some token)
          (lifecycle_body name workload_id phase reason retryable) r

    abbrev posted : Result Response
    posted =
        (post env "report lifecycle" "/operators/workloads/lifecycle" (some token)
          (lifecycle_body name workload_id phase reason retryable) t).0

    abbrev reported : Option GoError
    reported = (report_lifecycle env token name workload_id phase reason retryable t).0

    report_lifecycle-err : (e : GoError) → posted ≡ err e → reported ≡ some e
    unfolding report_lifecycle
    report_lifecycle-err e f = rw (reported, report_lifecycle, f) refl

    report_lifecycle-ok : (r : Response) → posted ≡ ok r → reported ≡ read_lifecycle env r
    unfolding report_lifecycle
    report_lifecycle-ok r f = rw (reported, report_lifecycle, f) refl

    report_lifecycle-answer : (r : Response) → SentReport r → reported ≡ read_lifecycle env r
    report_lifecycle-answer r a = report_lifecycle-ok r (
        Answered-post env t "report lifecycle" "/operators/workloads/lifecycle" (some token)
          (lifecycle_body name workload_id phase reason retryable) r a)

    pub report_lifecycle-taken :
        (reported ≡ none) ↔ ((r : Response) × SentReport r × (r.status ≡ 200))
    report_lifecycle-taken = (
      λ e.
          elim (post-Posted env t "report lifecycle" "/operators/workloads/lifecycle" (some token)
            (lifecycle_body name workload_id phase reason retryable)) [
              | response r f a ↦
                  (r, a, read_lifecycle-none r (sym (report_lifecycle-answer r a) ∙ e))
              | failure before after x f ↦
                  let lost = report_lifecycle-err (errorf before x after) f in absurd (ground arith)
            ],
      λ (r, a, status). report_lifecycle-answer r a ∙ none-read_lifecycle r status,
    )

    -- A report is taken exactly where Convex has answered it with 200, and it counts as out of
    -- date exactly where Convex has answered it with 409. No error of JSON, of a URL or of the
    -- transport may itself be the mark of a report that is out of date.
    pub report_lifecycle-verdict :
        Foreign
        → ((reported ≡ none) ↔ ((r : Response) × SentReport r × (r.status ≡ 200)))
          × (((e : GoError) × (reported ≡ some e) × (is_kind ErrorKind.lifecycle_stale e ≡ true))
              ↔ ((r : Response) × SentReport r × (r.status ≡ 409)))
    unfolding is_kind ErrorKind-discrete
    report_lifecycle-verdict laws =
        let run =
          post-Posted env t "report lifecycle" "/operators/workloads/lifecycle" (some token)
            (lifecycle_body name workload_id phase reason retryable) in
        (
          report_lifecycle-taken,
          (
            λ (e, f, k). elim run [
              | response r g a ↦
                  (r, a, read_lifecycle-stale r e (sym (report_lifecycle-answer r a) ∙ f) k)
              | failure before after x g ↦
                  let lost = report_lifecycle-err (errorf before x after) g in
                  let clean =
                    post-foreign t "report lifecycle" "/operators/workloads/lifecycle" (some token)
                      (lifecycle_body name workload_id phase reason retryable)
                      (errorf before x after) laws g in
                  absurd (ground arith)
            ],
            λ (r, a, status). (
              lifecycle_stale,
              report_lifecycle-answer r a ∙ stale-read_lifecycle r status,
              refl,
            ),
          ),
        )

  -- The calls of which only success matters are taken exactly where Convex has answered with 200.
  accepted_iff : (what : String) (r : Response) → (accepted env what r ≡ none) ↔ (r.status ≡ 200)
  unfolding accepted
  accepted_iff what r = (λ e. ground arith, λ e. ground arith)

  accepted-taken :
      (t : List Event) (what path token : String) (body : Wire.Body) (x : Option GoError)
      → ((e : GoError) → (post env what path (some token) body t).0 ≡ err e → x ≡ some e)
      → ((r : Response)
          → (post env what path (some token) body t).0 ≡ ok r
          → x ≡ accepted env what r)
      → x ≡ none
      → (r : Response) × Answered env t path (some token) body r × (r.status ≡ 200)
  accepted-taken t what path token body x fail good e =
      elim (post-Posted env t what path (some token) body) [
        | response r f a ↦ (r, a, (accepted_iff what r).0 (sym (good r f) ∙ e))
        | failure before after y f ↦
            let lost = fail (errorf before y after) f in absurd (ground arith)
      ]

  pub remove_workload-taken :
      (t : List Event) (token name namespace : String)
      → (remove_workload env token name namespace t).0 ≡ none
      → (r : Response) × Answered env t "/operators/workloads/remove"
          (some token)
          (Wire.remove name namespace)
          r
        × (r.status ≡ 200)
  unfolding remove_workload
  remove_workload-taken t token name namespace e =
      accepted-taken t "remove workload" "/operators/workloads/remove" token
        (Wire.remove name namespace) (remove_workload env token name namespace t).0
        (λ x f. rw (remove_workload, f) refl) (λ r f. rw (remove_workload, f) refl) e

  abbrev pub upsert_body : WorkloadInfo → Wire.Body
  upsert_body info = Wire.upsert (record {
    name = info.name;
    namespace = info.namespace;
    template_id = info.template_name;
    user_id = info.user_id;
    subdomain = info.subdomain;
    workload_id = info.workload_id;
  })

  pub upsert_workload-taken :
      (t : List Event) (token : String) (info : WorkloadInfo)
      → (upsert_workload env token info t).0 ≡ none
      → (r : Response) × Answered env t "/operators/workloads/upsert"
          (some token)
          (upsert_body info)
          r
        × (r.status ≡ 200)
  unfolding upsert_workload
  upsert_workload-taken t token info e =
      accepted-taken t "upsert workload" "/operators/workloads/upsert" token (upsert_body info)
        (upsert_workload env token info t).0 (λ x f. rw (upsert_workload, f) refl)
        (λ r f. rw (upsert_workload, f) refl) e
