-- ===== src/Operator/Ticks.antt =====
-- internal/convexclient/runnable.go: what holds of a whole tick of `processClaimable`.
use ai_cloud_operator.Base.{
  ℕ, suc, ◌+◌, ◌≤◌, String, List, [], ◌∷◌, Option, some, false, ◌≡◌, ◌≢◌, refl, inl, inr, ◌⊎◌,
  Result, ok, eq_iff, Bool-cases, length, take, length-take-le, arith,
}
use ai_cloud_operator.Workload.{Workload}
use ai_cloud_operator.Catalog.Template.{Template}
use ai_cloud_operator.Operator.Provisioning.{checked_config, new_workload}
use ai_cloud_operator.Operator.Storing.{IsStored, checked_config-IsStored}
use ai_cloud_operator.Capacity.Tracker.{Snapshot}
use ai_cloud_operator.Operator.World.{
  Env, Event, ClaimableWorkload, ClaimedWorkload, created_workload, claimed_workload,
}
use ai_cloud_operator.Operator.Claims.{max_claims_per_tick, claim_one, claim_all, process_claimable}
use ai_cloud_operator.Operator.ClaimRuns.{
  IsCurrent, workload_of, CreateRun, refused, failed, stored, ClaimRun, gated, lost, stale, spoilt,
  made, claim_one-ClaimRun,
}

-- How many claims of new workloads a history holds.
pub claims : List Event → ℕ
claims [] = 0
claims (claimed_workload token id ∷ t) = suc (claims t)
claims (e ∷ t) = claims t

module _ (env : Env) where
  CreateRun-claims :
      {c : ClaimedWorkload} {t : List Event} {r : Result Workload × List Event}
      → CreateRun env c t r
      → claims r.1 ≡ claims t
  unfolding claims
  CreateRun-claims (refused e f same) = rw same
  CreateRun-claims (failed raw e f same) = rw same
  CreateRun-claims (stored raw w f g same) = rw same

  ClaimRun-claims :
      {token : String} {item : ClaimableWorkload} {snap : Option Snapshot} {t : List Event}
      {r : Option Snapshot × List Event}
      → ClaimRun env token item snap t r
      → claims r.1 ≤ suc (claims t)
  unfolding claims
  ClaimRun-claims (gated held same) = rw same (omega arith)
  ClaimRun-claims (lost free why same) = rw same (omega arith)
  ClaimRun-claims (stale c free granted old same) = rw same (omega arith)
  ClaimRun-claims (spoilt c tmpl e s free granted now run same) =
      let kept = CreateRun-claims run in rw same (omega arith)
  ClaimRun-claims (made c tmpl w s free granted now run same) =
      let kept = CreateRun-claims run in rw same (omega arith)

  claim_all-claims :
      (token : String) (items : List ClaimableWorkload) (snap : Option Snapshot) (t : List Event)
      → claims (claim_all env token items snap t).1 ≤ length items + claims t
  unfolding claim_all
  claim_all-claims token [] snap t = omega arith
  claim_all-claims token (item ∷ items) snap t =
      let r = claim_one env token item snap t in
      omega (
        arith,
        ClaimRun-claims (claim_one-ClaimRun env token item snap t),
        claim_all-claims token items r.0 r.1,
      )

  -- What a tick does: nothing without a creator, else a round for each of the first five offers.
  pub process_claimable-rounds :
      (token : String) (items : List ClaimableWorkload) (snap : Option Snapshot) (t : List Event)
      → (process_claimable env token items snap t ≡ (snap, t))
        ⊎ (process_claimable env token items snap t
            ≡ claim_all env token (take max_claims_per_tick items) snap t)
  unfolding process_claimable
  process_claimable-rounds token items snap t = elim (Bool-cases env.has_creator) [
    | inr off ↦ inl (ground arith)
    | inl on ↦ inr (ground arith)
  ]

  -- One tick claims at most five new workloads, however many Convex offers.
  pub process_claimable-claims :
      (token : String) (items : List ClaimableWorkload) (snap : Option Snapshot) (t : List Event)
      → claims (process_claimable env token items snap t).1 ≤ claims t + max_claims_per_tick
  process_claimable-claims token items snap t = elim (process_claimable-rounds token items snap t) [
    | inl same ↦ rw same (omega arith)
    | inr same ↦ rw same (
        omega (
          arith,
          claim_all-claims token (take max_claims_per_tick items) snap t,
          length-take-le max_claims_per_tick items,
        ))
  ]

  -- The resource has what the claim names: the template, the user, the subdomain, the config, and a
  -- label with the claim's id, where that is not empty.
  pub record Carries (w : Workload) (c : ClaimedWorkload) : Type 0 where
    pub namespace : w.namespace ≡ env.namespace
    pub template : w.spec.template_name ≡ c.template_id
    pub user : w.spec.user_id ≡ c.user_id
    pub subdomain : w.spec.subdomain ≡ c.subdomain
    pub config : IsStored env c.config w.spec.config
    pub running : w.spec.suspended ≡ false
    pub unlabelled : c.workload_id ≡ "" → w.labels ≡ []
    pub labelled :
        c.workload_id ≢ "" → w.labels ≡ ("apps.aicloud.dev/workload-id", c.workload_id) ∷ []

  workload_of-Carries :
      (c : ClaimedWorkload) (raw : Option String)
      → checked_config env c.template_id c.config ≡ ok raw
      → Carries (workload_of env c raw) c
  unfolding new_workload
  workload_of-Carries c raw e = record {
    namespace = refl;
    template = refl;
    user = refl;
    subdomain = refl;
    config = checked_config-IsStored env c.template_id c.config raw e;
    running = refl;
    unlabelled = λ h. ground (arith, eq_iff c.workload_id "");
    labelled = λ h. ground (arith, eq_iff c.workload_id "");
  }

  -- The call before was a claim that Convex granted, for a template at its present version, and
  -- the resource carries what was claimed.
  pub record IsClaimed (w : Workload) (t : List Event) : Type 0 where
    pub token : String
    pub id : String
    pub before : List Event
    pub claim : ClaimedWorkload
    pub tmpl : Template
    pub last : t ≡ claimed_workload token id ∷ before
    pub granted : env.claim_workload before token id ≡ ok (some claim)
    pub current : IsCurrent env claim.template_id claim.template_version tmpl
    pub asked : Carries w claim

  abbrev pub IsJust : Event → List Event → Type 0
  IsJust (created_workload w) t = IsClaimed w t
  IsJust _ t = Unit

  -- Every creation in the history is a claimed one.
  abbrev pub IsOrderly : List Event → Type 0
  IsOrderly [] = Unit
  IsOrderly (e ∷ t) = IsJust e t × IsOrderly t

  CreateRun-IsOrderly :
      {token id : String} {c : ClaimedWorkload} {tmpl : Template} {t : List Event}
      {r : Result Workload × List Event}
      → env.claim_workload t token id ≡ ok (some c)
      → IsCurrent env c.template_id c.template_version tmpl
      → IsOrderly t
      → CreateRun env c (claimed_workload token id ∷ t) r
      → IsOrderly r.1
  CreateRun-IsOrderly granted now o (refused e f same) = rw same (tt, o)
  CreateRun-IsOrderly {token} {id} {c} {tmpl} {t} granted now o (failed raw x e same) = rw same (
    record {
      token = token;
      id = id;
      before = t;
      claim = c;
      tmpl = tmpl;
      last = refl;
      granted = granted;
      current = now;
      asked = workload_of-Carries c raw e;
    },
    (tt, o),
  )
  CreateRun-IsOrderly {token} {id} {c} {tmpl} {t} granted now o (stored raw w e g same) = rw same (
    record {
      token = token;
      id = id;
      before = t;
      claim = c;
      tmpl = tmpl;
      last = refl;
      granted = granted;
      current = now;
      asked = workload_of-Carries c raw e;
    },
    (tt, o),
  )

  ClaimRun-IsOrderly :
      {token : String} {item : ClaimableWorkload} {snap : Option Snapshot} {t : List Event}
      {r : Option Snapshot × List Event}
      → IsOrderly t
      → ClaimRun env token item snap t r
      → IsOrderly r.1
  ClaimRun-IsOrderly o (gated held same) = rw same o
  ClaimRun-IsOrderly o (lost free why same) = rw same (tt, o)
  ClaimRun-IsOrderly o (stale c free granted old same) = rw same (tt, (tt, o))
  ClaimRun-IsOrderly o (spoilt c tmpl e s free granted now run same) =
      rw same (tt, CreateRun-IsOrderly granted now o run)
  ClaimRun-IsOrderly o (made c tmpl w s free granted now run same) =
      rw same (CreateRun-IsOrderly granted now o run)

  claim_all-IsOrderly :
      (token : String) (items : List ClaimableWorkload) (snap : Option Snapshot) (t : List Event)
      → IsOrderly t
      → IsOrderly (claim_all env token items snap t).1
  unfolding claim_all
  claim_all-IsOrderly token [] snap t o = o
  claim_all-IsOrderly token (item ∷ items) snap t o =
      let r = claim_one env token item snap t in
      claim_all-IsOrderly token items r.0 r.1
        (ClaimRun-IsOrderly o (claim_one-ClaimRun env token item snap t))

  -- In the history of a tick every resource is created right after a claim that Convex granted, for
  -- a template at its present version, with the content that was claimed.
  pub process_claimable-IsOrderly :
      (token : String) (items : List ClaimableWorkload) (snap : Option Snapshot) (t : List Event)
      → IsOrderly t
      → IsOrderly (process_claimable env token items snap t).1
  process_claimable-IsOrderly token items snap t o =
      elim (process_claimable-rounds token items snap t) [
        | inl same ↦ rw same o
        | inr same ↦ rw same (claim_all-IsOrderly token (take max_claims_per_tick items) snap t o)
      ]
