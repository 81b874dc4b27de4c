-- ===== src/Controller/Ending.antt =====
-- internal/controller/workload_controller.go: when `Reconcile` stops asking to be run again.
use ai_cloud_operator.Base.{
  ◌⊎◌, Option, String, List, ◌∷◌, none, true, false, ◌≡◌, refl, inl, inr, Bool-cases, Result-cases,
  ok, err, GoError, ErrorKind, is_kind, Option-cases, arith,
}
use ai_cloud_operator.Workload.{Workload}
use ai_cloud_operator.Controller.World.{Env, Event, got_workload, updated_workload}
use ai_cloud_operator.Controller.Sync.{notify_removed}
use ai_cloud_operator.Controller.Reconcile.{done, workload_finalizer, reconcile_delete}
use ai_cloud_operator.Controller.Loop.{reconcile_live, reconcile}
use ai_cloud_operator.Controller.Calm.{Calm, reconcile_spec-Calm}

module _ (env : Env) where
  -- The object with the finalizer put on, and taken off.
  abbrev pub adopted : Workload → Workload
  adopted w = record w { finalizers = env.add_finalizer w.finalizers workload_finalizer }

  abbrev freed : Workload → Workload
  freed w = record w { finalizers = env.remove_finalizer w.finalizers workload_finalizer }

  -- The object with its finalizer, and the history since it holds it.
  abbrev pub Held : Workload → Workload → List Event → List Event → Type 0
  Held w v t s =
      ((env.contains_finalizer w.finalizers workload_finalizer ≡ true) × (v ≡ w) × (s ≡ t))
      ⊎ ((env.contains_finalizer w.finalizers workload_finalizer ≡ false)
          × (env.update_workload t (adopted w) ≡ ok v)
          × (s ≡ updated_workload (adopted w) ∷ t))

  -- Convex's answer to the removal of an object that was just read.
  abbrev told : String → String → Workload → List Event → Option GoError × List Event
  told namespace name w t = notify_removed env w.namespace w.name (got_workload namespace name ∷ t)

  -- Why a run from the history `t` may end with neither an error nor a wish to be run again.
  pub data Quiet (namespace name : String) (t : List Event) : List Event → Type 0 where
    -- The object is gone; Convex has been told, without regard to its answer.
    gone :
        {t' : List Event} (e : GoError)
        → env.get_workload t namespace name ≡ err e
        → is_kind ErrorKind.not_found e ≡ true
        → t' ≡ (notify_removed env namespace name (got_workload namespace name ∷ t)).1
        → Quiet namespace name t t'
    -- The object is being deleted and does not hold the operator's finalizer.
    unheld :
        {t' : List Event} (w : Workload)
        → env.get_workload t namespace name ≡ ok w
        → w.deleting ≡ true
        → env.contains_finalizer w.finalizers workload_finalizer ≡ false
        → t' ≡ got_workload namespace name ∷ t
        → Quiet namespace name t t'
    -- It did, Convex, where attached, has taken the removal, and then the finalizer was taken off.
    let_go :
        {t' : List Event} (w stored : Workload)
        → env.get_workload t namespace name ≡ ok w
        → w.deleting ≡ true
        → (told namespace name w t).0 ≡ none
        → env.update_workload (told namespace name w t).1 (freed w) ≡ ok stored
        → t' ≡ updated_workload (freed w) ∷ (told namespace name w t).1
        → Quiet namespace name t t'
    -- It is not being deleted, and the rest of the run has ended so.
    calm :
        {t' : List Event} (w v : Workload) (s : List Event)
        → env.get_workload t namespace name ≡ ok w
        → w.deleting ≡ false
        → Held w v (got_workload namespace name ∷ t) s
        → Calm env namespace name v s t'
        → Quiet namespace name t t'

  reconcile_live-Calm :
      (namespace name : String) (w : Workload) (t t' : List Event)
      → reconcile_live env namespace name w t ≡ (done, t')
      → (v : Workload) × (s : List Event) × Held w v t s × Calm env namespace name v s t'
  unfolding reconcile_live
  reconcile_live-Calm namespace name w t t' e =
      elim (Bool-cases (env.contains_finalizer w.finalizers workload_finalizer)) [
        | inl held ↦ (
          w,
          t,
          inl (held, refl, refl),
          reconcile_spec-Calm env namespace name w t t' (ground arith),
        )
        | inr free ↦ elim (Result-cases (env.update_workload t (adopted w))) [
          | inl (stored, f) ↦
              let s = updated_workload (adopted w) ∷ t in
              (
                stored,
                s,
                inr (free, f, refl),
                reconcile_spec-Calm env namespace name stored s t' (ground arith),
              )
          | inr (x, f) ↦ absurd (ground arith)
        ]
      ]

  reconcile_delete-Quiet :
      (namespace name : String) (w : Workload) (t t' : List Event)
      → env.get_workload t namespace name ≡ ok w
      → w.deleting ≡ true
      → reconcile_delete env w (got_workload namespace name ∷ t) ≡ (done, t')
      → Quiet namespace name t t'
  unfolding reconcile_delete
  reconcile_delete-Quiet namespace name w t t' got going e =
      elim (Bool-cases (env.contains_finalizer w.finalizers workload_finalizer)) [
        | inr free ↦ unheld w got going free (ground arith)
        | inl held ↦ elim (Option-cases (told namespace name w t).0) [
          | inr (x, f) ↦ absurd (ground arith)
          | inl f ↦
              elim (Result-cases (env.update_workload (told namespace name w t).1 (freed w))) [
                | inl (stored, g) ↦ let_go w stored got going f g (ground arith)
                | inr (x, g) ↦ absurd (ground arith)
              ]
        ]
      ]

  -- `Reconcile` ends with neither an error nor a wish to be run again only where the object is gone
  -- (and Convex, where it is attached, was told, without regard to its answer); where it is being
  -- deleted and does not hold the finalizer, or Convex, where it is attached, has taken its removal
  -- and the finalizer was then taken off; where both writes have succeeded and the claim was given
  -- up; or where both writes have succeeded, the stored phase is Running or Stopped, and neither
  -- syncConvex nor updateStatus says that a report to Convex is still to be made.
  pub reconcile-Quiet :
      (namespace name : String) (t t' : List Event)
      → reconcile env namespace name t ≡ (done, t')
      → Quiet namespace name t t'
  unfolding reconcile
  reconcile-Quiet namespace name t t' e = elim (Result-cases (env.get_workload t namespace name)) [
    | inr (x, f) ↦ elim (Bool-cases (is_kind ErrorKind.not_found x)) [
      | inl g ↦ gone x f g (ground arith)
      | inr g ↦ absurd (ground arith)
    ]
    | inl (w, f) ↦ elim (Bool-cases w.deleting) [
      | inl g ↦ reconcile_delete-Quiet namespace name w t t' f g (ground arith)
      | inr g ↦
          let (v, s, held, rest) =
            reconcile_live-Calm namespace name w (got_workload namespace name ∷ t) t'
              (ground arith) in
          calm w v s f g held rest
    ]
  ]
