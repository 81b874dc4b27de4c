-- ===== src/Gateway/Consensus.antt =====
-- internal/gateway/keystore.go: the race of the replicas against what LoadOrGenerate promises.
use ai_cloud_operator.Base.{
  ℕ, ◌<◌, String, List, ◌∷◌, map, none, some, ErrorKind-discrete, is_kind, ok, ◌≡◌, ◌≢◌, refl, sym,
  ap, subst, arith,
}
use ai_cloud_operator.Gateway.KeyStore.{Stage, start, drawing, creating, rereading, done, advance}
use ai_cloud_operator.Gateway.Race.{
  Cell, stores, moved, cell_after, remaining, Step, here, there, Run, stop, then, starting, IsGood,
  IsFull,
}
use ai_cloud_operator.Gateway.Agreement.{
  IsSafe, Step-IsSafe, key_of-key_secret, not_empty, starting-IsGood,
}

-- What is promised: there is one key for all replicas. The first replica to decide fixes it, and
-- every other one learns it. The state is the fixed key, and what each replica knows.
pub data Decision : Cell × List Cell → Cell × List Cell → Type 0 where
  decide :
      {known : List Cell} (key : String)
      → key ≢ ""
      → Decision (none, none ∷ known) (some key, some key ∷ known)
  learn :
      {known : List Cell} (key : String)
      → Decision (some key, none ∷ known) (some key, some key ∷ known)
  other :
      {c c' x : Cell} {known known' : List Cell}
      → Decision (c, known) (c', known')
      → Decision (c, x ∷ known) (c', x ∷ known')

pub data Decisions : Cell × List Cell → Cell × List Cell → Type 0 where
  nothing : {w : Cell × List Cell} → Decisions w w
  next : {u v w : Cell × List Cell} → Decision u v → Decisions v w → Decisions u w

-- What a replica knows at a stage: the key it has returned.
abbrev pub known : Stage → Cell
known (done (ok key)) = some key
known _ = none

abbrev pub view : Cell × List Stage → Cell × List Cell
view (c, ps) = (c, map known ps)

-- One call of a replica is a decision or nothing that is seen.
data Seen (u v : Cell × List Cell) : Type 0 where
  seen : Decision u v → Seen u v
  unseen : u ≡ v → Seen u v

moved-Seen :
    (c : Cell) (key : String) (p : Stage) (ks : List Cell)
    → key ≢ ""
    → 0 < remaining p
    → IsFull c
    → IsGood c p
    → Seen (c, known p ∷ ks) (cell_after c key p, known (moved c key p) ∷ ks)
unfolding advance stores is_kind ErrorKind-discrete
moved-Seen none key start ks ne live f g = unseen refl
moved-Seen (some k) key start ks ne live f g =
    rw (key_of-key_secret k, not_empty k (f k refl)) (seen (learn k))
moved-Seen none key drawing ks ne live f g = unseen refl
moved-Seen (some k) key drawing ks ne live f g = unseen refl
moved-Seen none key (creating x) ks ne live f g = rw (key_of-key_secret x) (seen (decide x g))
moved-Seen (some k) key (creating x) ks ne live f g = unseen refl
moved-Seen none key rereading ks ne live f g = absurd (g refl)
moved-Seen (some k) key rereading ks ne live f g =
    rw (key_of-key_secret k, not_empty k (f k refl)) (seen (learn k))
moved-Seen c key (done r) ks ne live f g = absurd (omega arith)

other-Seen :
    {c c' x : Cell} {ks ks' : List Cell} → Seen (c, ks) (c', ks') → Seen (c, x ∷ ks) (c', x ∷ ks')
other-Seen (seen d) = seen (other d)
other-Seen {x = x} (unseen e) = unseen (ap (λ w. (w.0, x ∷ w.1)) e)

Step-Seen : {u v : Cell × List Stage} → Step u v → IsSafe u → Seen (view u) (view v)
Step-Seen (here {c} {p} {ps} key ne live) (f, (g, h)) =
    moved-Seen c key p (map known ps) ne live f g
Step-Seen (there s) (f, (g, h)) = other-Seen (Step-Seen s (f, h))

Seen-Decisions : {u v w : Cell × List Cell} → Seen u v → Decisions v w → Decisions u w
Seen-Decisions (seen d) r = next d r
Seen-Decisions {w = w} (unseen e) r = subst (λ x. Decisions x w) (sym e) r

Run-Decisions :
    {n : ℕ} {u v : Cell × List Stage} → Run n u v → IsSafe u → Decisions (view u) (view v)
Run-Decisions stop h = nothing
Run-Decisions (then s r) h = Seen-Decisions (Step-Seen s h) (Run-Decisions r (Step-IsSafe s h))

-- The race refines what is promised: however the calls of n replicas interleave, what is seen of
-- them is one replica that fixes a key, and others that learn it. The store starts with no Secret or
-- with one that has a key, and no drawn key is empty.
pub Run-refines :
    (replicas n : ℕ) (c : Cell) (w : Cell × List Stage)
    → IsFull c
    → Run n (c, starting replicas) w
    → Decisions (view (c, starting replicas)) (view w)
Run-refines replicas n c w f r = Run-Decisions r (f, starting-IsGood c replicas)
