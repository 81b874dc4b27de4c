-- ===== src/Operator/Intake.antt =====
-- internal/convexclient/runnable.go: which kinds of calls the claims of new work make.
use ai_cloud_operator.Base.{String, List, [], ◌∷◌, Option, refl, inl, inr, Result}
use ai_cloud_operator.Capacity.Tracker.{Snapshot}
use ai_cloud_operator.Workload.{Workload}
use ai_cloud_operator.Operator.World.{Env, Event, ClaimableWorkload, ClaimedWorkload}
use ai_cloud_operator.Operator.Claims.{claim_all, process_claimable}
use ai_cloud_operator.Operator.ClaimRuns.{
  CreateRun, refused, failed, stored, ClaimRun, gated, lost, stale, spoilt, made,
  claim_one-ClaimRun,
}
use ai_cloud_operator.Operator.Ticks.{process_claimable-rounds}
use ai_cloud_operator.Operator.Extents.{Extends, same, more, Extends-trans, IsIntake}

module _ (env : Env) where
  CreateRun-Extends :
      {c : ClaimedWorkload} {t : List Event} {r : Result Workload × List Event}
      → CreateRun env c t r
      → Extends IsIntake t r.1
  CreateRun-Extends (refused e f g) = rw g (same refl)
  CreateRun-Extends (failed raw e f g) = rw g (more tt (same refl))
  CreateRun-Extends (stored raw w f g h) = rw h (more tt (same refl))

  ClaimRun-Extends :
      {token : String} {item : ClaimableWorkload} {snap : Option Snapshot} {t : List Event}
      {r : Option Snapshot × List Event}
      → ClaimRun env token item snap t r
      → Extends IsIntake t r.1
  ClaimRun-Extends (gated held e) = rw e (same refl)
  ClaimRun-Extends (lost free why e) = rw e (more tt (same refl))
  ClaimRun-Extends (stale c free granted old e) = rw e (more tt (more tt (same refl)))
  ClaimRun-Extends (spoilt c tmpl x s free granted now run e) =
      rw e (more tt (Extends-trans (more tt (same refl)) (CreateRun-Extends run)))
  ClaimRun-Extends (made c tmpl w s free granted now run e) =
      rw e (Extends-trans (more tt (same refl)) (CreateRun-Extends run))

  claim_all-Extends :
      (token : String) (items : List ClaimableWorkload) (snap : Option Snapshot) (t : List Event)
      → Extends IsIntake t (claim_all env token items snap t).1
  unfolding claim_all
  claim_all-Extends token [] snap t = same refl
  claim_all-Extends token (item ∷ items) snap t =
      Extends-trans (ClaimRun-Extends (claim_one-ClaimRun env token item snap t))
        (claim_all-Extends token items _ _)

  pub process_claimable-Extends :
      (token : String) (items : List ClaimableWorkload) (snap : Option Snapshot) (t : List Event)
      → Extends IsIntake t (process_claimable env token items snap t).1
  process_claimable-Extends token items snap t =
      elim (process_claimable-rounds env token items snap t) [
        | inl e ↦ rw e (same refl)
        | inr e ↦ rw e (claim_all-Extends token _ snap t)
      ]
