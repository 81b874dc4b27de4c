-- ===== src/Operator/ClaimRuns.antt =====
-- internal/convexclient/runnable.go: every way in which one round of `processClaimable` can go.
use ai_cloud_operator.Base.{
  String, List, ◌∷◌, Option, none, some, true, false, eq_iff, ◌≡◌, sym, subst, inl, inr, ◌⊎◌,
  GoError, errorf, message, Result, ok, err, Bool-cases, Option-cases, Result-cases, arith,
}
use ai_cloud_operator.Workload.{Workload}
use ai_cloud_operator.Catalog.Template.{Template}
use ai_cloud_operator.Catalog.Registry.{get}
use ai_cloud_operator.Capacity.Tracker.{Snapshot}
use ai_cloud_operator.Operator.World.{
  Env, Event, ClaimableWorkload, ClaimedWorkload, created_workload, claimed_workload,
  reported_failed,
}
use ai_cloud_operator.Operator.Provisioning.{checked_config, new_workload, create}
use ai_cloud_operator.Operator.Claims.{
  version_mismatch, report, current_template, is_gated, charge, create_claimed, claim_one,
}

module _ (env : Env) where
  -- The request names a template of the catalog at its present version.
  abbrev pub IsCurrent : String → String → Template → Type 0
  IsCurrent id version tmpl = (get env.lib id ≡ some tmpl) × (tmpl.version ≡ version)

  pub current_template-some :
      (id version : String) (tmpl : Template)
      → current_template env id version ≡ some tmpl
      → IsCurrent id version tmpl
  unfolding current_template
  current_template-some id version tmpl e = elim (Option-cases (get env.lib id)) [
    | inl f ↦ absurd (ground arith)
    | inr (x, f) ↦ (ground arith, ground (arith, eq_iff x.version version))
  ]

  -- The resource that a claim turns into, with its stored config.
  abbrev pub workload_of : ClaimedWorkload → Option String → Workload
  workload_of c raw = new_workload env c.workload_id c.template_id c.user_id c.subdomain raw

  -- The ways in which Create can go: refused before any call, or one call of the API server.
  pub data CreateRun (c : ClaimedWorkload) (t : List Event)
      : Result Workload × List Event → Type 0 where
    refused :
        {r : Result Workload × List Event} (e : GoError)
        → checked_config env c.template_id c.config ≡ err e
        → r ≡ (err e, t)
        → CreateRun c t r
    failed :
        {r : Result Workload × List Event} (raw : Option String) (e : GoError)
        → checked_config env c.template_id c.config ≡ ok raw
        → r ≡ (err e, created_workload (workload_of c raw) ∷ t)
        → CreateRun c t r
    stored :
        {r : Result Workload × List Event} (raw : Option String) (w : Workload)
        → checked_config env c.template_id c.config ≡ ok raw
        → env.create_workload t (workload_of c raw) ≡ ok w
        → r ≡ (ok w, created_workload (workload_of c raw) ∷ t)
        → CreateRun c t r

  pub create-CreateRun :
      (c : ClaimedWorkload) (t : List Event)
      → CreateRun c t (create env c.workload_id c.template_id c.user_id c.subdomain c.config t)
  unfolding create
  create-CreateRun c t = elim (Result-cases (checked_config env c.template_id c.config)) [
    | inr (e, f) ↦ refused e f (rw (f, create))
    | inl (raw, f) ↦ elim (Result-cases (env.create_workload t (workload_of c raw))) [
      | inl (w, g) ↦ stored raw w f g (ground arith)
      | inr (e, g) ↦ failed raw (errorf "creating workload: " e "") f (ground arith)
    ]
  ]

  -- The ways in which one round can go, for the round's value and the history after it.
  pub data ClaimRun (token : String) (item : ClaimableWorkload) (snap : Option Snapshot)
      (t : List Event) : Option Snapshot × List Event → Type 0 where
    -- Held back by the local gate: nobody is called.
    gated :
        {r : Option Snapshot × List Event}
        → is_gated env snap item ≡ true
        → r ≡ (snap, t)
        → ClaimRun token item snap t r
    -- The claim failed, or another operator has it.
    lost :
        {r : Option Snapshot × List Event}
        → is_gated env snap item ≡ false
        → ((e : GoError) × (env.claim_workload t token item.workload_id ≡ err e))
          ⊎ (env.claim_workload t token item.workload_id ≡ ok none)
        → r ≡ (snap, claimed_workload token item.workload_id ∷ t)
        → ClaimRun token item snap t r
    -- Claimed, but the template has another version: reported at once, for good.
    stale :
        {r : Option Snapshot × List Event} (c : ClaimedWorkload)
        → is_gated env snap item ≡ false
        → env.claim_workload t token item.workload_id ≡ ok (some c)
        → current_template env c.template_id c.template_version ≡ none
        → r ≡ (
          snap,
          reported_failed token "" c.workload_id version_mismatch false
              ∷ claimed_workload token item.workload_id
              ∷ t,
        )
        → ClaimRun token item snap t r
    -- Claimed, and Create failed: reported at once, for another attempt.
    spoilt :
        {r : Option Snapshot × List Event} (c : ClaimedWorkload) (tmpl : Template) (e : GoError)
        (s : List Event)
        → is_gated env snap item ≡ false
        → env.claim_workload t token item.workload_id ≡ ok (some c)
        → IsCurrent c.template_id c.template_version tmpl
        → CreateRun c (claimed_workload token item.workload_id ∷ t) (err e, s)
        → r ≡ (snap, reported_failed token "" c.workload_id (message e) true ∷ s)
        → ClaimRun token item snap t r
    -- Claimed and created; the estimate is taken from the headroom.
    made :
        {r : Option Snapshot × List Event} (c : ClaimedWorkload) (tmpl : Template) (w : Workload)
        (s : List Event)
        → is_gated env snap item ≡ false
        → env.claim_workload t token item.workload_id ≡ ok (some c)
        → IsCurrent c.template_id c.template_version tmpl
        → CreateRun c (claimed_workload token item.workload_id ∷ t) (ok w, s)
        → r ≡ (charge env snap tmpl, s)
        → ClaimRun token item snap t r

  module _ (token : String) (item : ClaimableWorkload) (snap : Option Snapshot)
      (t : List Event) where
    abbrev created_by : ClaimedWorkload → Result Workload × List Event
    created_by c =
        create env c.workload_id c.template_id c.user_id c.subdomain c.config
          (claimed_workload token item.workload_id ∷ t)

    ran :
        (c : ClaimedWorkload) {x : Result Workload}
        → (created_by c).0 ≡ x
        → CreateRun c (claimed_workload token item.workload_id ∷ t) (x, (created_by c).1)
    ran c e =
        subst (λ x. CreateRun c (claimed_workload token item.workload_id ∷ t) (x, (created_by c).1))
          e (create-CreateRun c (claimed_workload token item.workload_id ∷ t))

    claimed_run :
        (c : ClaimedWorkload)
        → is_gated env snap item ≡ false
        → env.claim_workload t token item.workload_id ≡ ok (some c)
        → ClaimRun token item snap t
            (create_claimed env token c snap (claimed_workload token item.workload_id ∷ t))
    unfolding create_claimed report
    claimed_run c free granted =
        elim (Option-cases (current_template env c.template_id c.template_version)) [
          | inl f ↦ stale c free granted f (ground arith)
          | inr (tmpl, f) ↦ elim (Result-cases (created_by c).0) [
            | inl (w, g) ↦
                made c tmpl w (created_by c).1 free granted (current_template-some _ _ tmpl f)
                  (ran c g) (ground arith)
            | inr (e, g) ↦
                spoilt c tmpl e (created_by c).1 free granted (current_template-some _ _ tmpl f)
                  (ran c g) (ground arith)
          ]
        ]

    -- One round goes in one of the ways of `ClaimRun`: held back by the gate; not granted; granted
    -- but stale, and reported as final; granted but not created, and reported for another attempt;
    -- or created, and charged to the snapshot. A resource is asked for only after a granted claim
    -- on a current template, and each granted claim ends in a resource or a report.
    pub claim_one-ClaimRun : ClaimRun token item snap t (claim_one env token item snap t)
    unfolding claim_one
    claim_one-ClaimRun = elim (Bool-cases (is_gated env snap item)) [
      | inl held ↦ gated held (rw (held, claim_one))
      | inr free ↦ elim (Result-cases (env.claim_workload t token item.workload_id)) [
        | inr (e, f) ↦ lost free (inl (e, f)) (rw (free, claim_one) (ground arith))
        | inl (none, f) ↦ lost free (inr f) (ground arith)
        | inl (some c, f) ↦
            subst (ClaimRun token item snap t)
              (sym (
                let same : claim_one env token item snap t
                    ≡ create_claimed env token c snap
                        (claimed_workload token item.workload_id ∷ t) =
                  ground arith in
                same))
              (claimed_run c free f)
      ]
    ]
