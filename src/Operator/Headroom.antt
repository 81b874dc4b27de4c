-- ===== src/Operator/Headroom.antt =====
-- internal/convexclient/runnable.go: the capacity gate of `processClaimable` over a whole tick.
use ai_cloud_operator.Base.{
  ℕ, zero, suc, String, List, [], ◌∷◌, Option, some, true, false, take, ◌+◌, ◌≤◌, ◌≡◌, refl, ap,
  ◌∙◌, inl, inr, ok, All, arith,
}
use ai_cloud_operator.Base.Int.{pos, add64-pos}
use ai_cloud_operator.Catalog.Template.{Template, estimated_resources}
use ai_cloud_operator.Catalog.Registry.{get}
use ai_cloud_operator.Capacity.Tracker.{Snapshot, fits}
use ai_cloud_operator.Capacity.Room.{reading, InRange, fits_iff}
use ai_cloud_operator.Operator.World.{Env, Event, ClaimableWorkload, ClaimedWorkload}
use ai_cloud_operator.Operator.Claims.{
  max_claims_per_tick, is_gated, charge, claim_one, claim_all, process_claimable,
}
use ai_cloud_operator.Operator.ClaimRuns.{
  ClaimRun, gated, lost, stale, spoilt, made, claim_one-ClaimRun,
}
use ai_cloud_operator.Operator.Ticks.{process_claimable-rounds}

-- What is used is at most what there is, for both resources.
pub record Within (cpu mem : ℕ) (snap : Option Snapshot) : Type 0 where
  pub used_cpu : ℕ
  pub used_mem : ℕ
  pub figures : snap ≡ some (reading cpu mem used_cpu used_mem)
  pub cpu_left : used_cpu ≤ cpu
  pub mem_left : used_mem ≤ mem

-- The estimates of the catalog's templates are not negative, and a granted claim is for the template that
-- was offered.
module _ (env : Env) (cpu_of mem_of : Template → ℕ)
    (estimates : (id : String) (tmpl : Template)
      → get env.lib id ≡ some tmpl
      → estimated_resources env.lib tmpl ≡ (pos (cpu_of tmpl), pos (mem_of tmpl)))
    (cpu mem : ℕ) (cpu_range : InRange cpu) (mem_range : InRange mem) where
  abbrev pub IsHonest : ClaimableWorkload → Type 0
  IsHonest item =
      (t : List Event) (token : String) (c : ClaimedWorkload)
      → env.claim_workload t token item.workload_id ≡ ok (some c)
      → c.template_id ≡ item.template_id

  passed :
      (snap : Snapshot) (item : ClaimableWorkload) (tmpl : Template)
      → get env.lib item.template_id ≡ some tmpl
      → is_gated env (some snap) item ≡ false
      → fits snap (pos (cpu_of tmpl)) (pos (mem_of tmpl)) ≡ true
  unfolding is_gated
  passed snap item tmpl known free = let e = estimates item.template_id tmpl known in ground arith

  charged :
      (used_cpu used_mem : ℕ) (tmpl : Template)
      → estimated_resources env.lib tmpl ≡ (pos (cpu_of tmpl), pos (mem_of tmpl))
      → InRange (used_cpu + cpu_of tmpl)
      → InRange (used_mem + mem_of tmpl)
      → charge env (some (reading cpu mem used_cpu used_mem)) tmpl
        ≡ some (reading cpu mem (used_cpu + cpu_of tmpl) (used_mem + mem_of tmpl))
  unfolding charge
  charged used_cpu used_mem tmpl e h k =
      rw (e, add64-pos used_cpu (cpu_of tmpl) h, add64-pos used_mem (mem_of tmpl) k) refl

  charge-Within :
      (snap : Option Snapshot) (item : ClaimableWorkload) (tmpl : Template)
      → get env.lib item.template_id ≡ some tmpl
      → is_gated env snap item ≡ false
      → Within cpu mem snap
      → Within cpu mem (charge env snap tmpl)
  charge-Within snap item tmpl known free w =
      let open_gate : is_gated env (some (reading cpu mem w.used_cpu w.used_mem)) item ≡ false =
        rw w.figures at free in
      let room =
        (fits_iff cpu mem w.used_cpu w.used_mem (cpu_of tmpl) (mem_of tmpl) cpu_range mem_range
            (omega (arith, w.cpu_left)) (omega (arith, w.mem_left))).0
          (passed (reading cpu mem w.used_cpu w.used_mem) item tmpl known open_gate) in
      let spent =
        charged w.used_cpu w.used_mem tmpl (estimates item.template_id tmpl known)
          (omega (arith, room.0)) (omega (arith, room.1)) in
      record {
        used_cpu = w.used_cpu + cpu_of tmpl;
        used_mem = w.used_mem + mem_of tmpl;
        figures = ap (λ o. charge env o tmpl) w.figures ∙ spent;
        cpu_left = room.0;
        mem_left = room.1;
      }

  claim_one-Within :
      (token : String) (item : ClaimableWorkload) (snap : Option Snapshot) (t : List Event)
      {r : Option Snapshot × List Event}
      → IsHonest item
      → Within cpu mem snap
      → ClaimRun env token item snap t r
      → Within cpu mem r.0
  claim_one-Within token item snap t honest w (gated held same) = rw same w
  claim_one-Within token item snap t honest w (lost free why same) = rw same w
  claim_one-Within token item snap t honest w (stale c free granted old same) = rw same w
  claim_one-Within token item snap t honest w (spoilt c tmpl e s free granted now run same) =
      rw same w
  claim_one-Within token item snap t honest w (made c tmpl v s free granted now run same) =
      let template = honest t token c granted in
      let known : get env.lib item.template_id ≡ some tmpl = rw (← template) now.0 in
      rw same (charge-Within snap item tmpl known free w)

  claim_all-Within :
      (token : String) (items : List ClaimableWorkload) (snap : Option Snapshot) (t : List Event)
      → All IsHonest items
      → Within cpu mem snap
      → Within cpu mem (claim_all env token items snap t).0
  unfolding claim_all
  claim_all-Within token [] snap t honest w = w
  claim_all-Within token (item ∷ items) snap t (honest, rest) w =
      let r = claim_one env token item snap t in
      claim_all-Within token items r.0 r.1 rest
        (claim_one-Within token item snap t honest w (claim_one-ClaimRun env token item snap t))

  take-IsHonest :
      (n : ℕ) (items : List ClaimableWorkload) → All IsHonest items → All IsHonest (take n items)
  take-IsHonest zero items h = tt
  take-IsHonest (suc n) [] h = tt
  take-IsHonest (suc n) (item ∷ items) (h, rest) = (h, take-IsHonest n items rest)

  -- A tick never books more than there is: where the snapshot's figures are in range and within
  -- the cluster's capacity before the tick, they are within it after the tick. The estimates must
  -- not be negative, and each granted claim must be for the offered template.
  pub process_claimable-Within :
      (token : String) (items : List ClaimableWorkload) (snap : Option Snapshot) (t : List Event)
      → All IsHonest items
      → Within cpu mem snap
      → Within cpu mem (process_claimable env token items snap t).0
  process_claimable-Within token items snap t honest w =
      elim (process_claimable-rounds env token items snap t) [
        | inl same ↦ rw same w
        | inr same ↦ rw same (
            claim_all-Within token (take max_claims_per_tick items) snap t
              (take-IsHonest max_claims_per_tick items honest) w)
      ]
