-- ===== src/Operator/Extents.antt =====
-- internal/convexclient/runnable.go: the kinds of calls that parts of the Runnable make.
use ai_cloud_operator.Base.{List, ◌∷◌, ◌≡◌}
use ai_cloud_operator.Operator.World.{
  Event, created_workload, updated_workload, deleted_workload, registered,
}

-- The one history continues the other, and each new call is of this kind.
pub data Extends (P : Event → Type 0) (t : List Event) : List Event → Type 0 where
  same : {s : List Event} → s ≡ t → Extends P t s
  more : {e : Event} {s : List Event} → P e → Extends P t s → Extends P t (e ∷ s)

pub Extends-trans :
    {P : Event → Type 0} {t s r : List Event} → Extends P t s → Extends P s r → Extends P t r
Extends-trans x (same e) = rw e x
Extends-trans x (more p y) = more p (Extends-trans x y)

pub Extends-map :
    {P Q : Event → Type 0} {t s : List Event}
    → ((e : Event) → P e → Q e)
    → Extends P t s
    → Extends Q t s
Extends-map f (same e) = same e
Extends-map f (more {e} p x) = more (f e p) (Extends-map f x)

-- A pending operation creates no resource and registers nothing.
abbrev pub IsUpkeep : Event → Type 0
IsUpkeep (created_workload w) = ⊥
IsUpkeep (registered secret) = ⊥
IsUpkeep _ = Unit

-- A claim of new work changes and deletes no resource and registers nothing.
abbrev pub IsIntake : Event → Type 0
IsIntake (updated_workload w) = ⊥
IsIntake (deleted_workload name) = ⊥
IsIntake (registered secret) = ⊥
IsIntake _ = Unit

-- No resource is written.
abbrev pub IsPlain : Event → Type 0
IsPlain (created_workload w) = ⊥
IsPlain (updated_workload w) = ⊥
IsPlain (deleted_workload name) = ⊥
IsPlain _ = Unit

-- Nothing is written, and nothing is registered.
abbrev pub IsReading : Event → Type 0
IsReading (created_workload w) = ⊥
IsReading (updated_workload w) = ⊥
IsReading (deleted_workload name) = ⊥
IsReading (registered secret) = ⊥
IsReading _ = Unit

pub IsReading-IsPlain : (e : Event) → IsReading e → IsPlain e
IsReading-IsPlain (created_workload w) h = h
IsReading-IsPlain (updated_workload w) h = h
IsReading-IsPlain (deleted_workload name) h = h
IsReading-IsPlain _ h = tt
