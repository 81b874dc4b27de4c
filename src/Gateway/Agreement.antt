-- ===== src/Gateway/Agreement.antt =====
-- internal/gateway/keystore.go: the replicas of a race agree on the key.
use ai_cloud_operator.Base.{
  ℕ, zero, suc, String, List, [], ◌∷◌, none, some, false, ◌==◌, eq_iff, ErrorKind-discrete, is_kind,
  Result, ok, get_text, lookup, Option-cases, ◌≡◌, ◌≢◌, refl, ap, subst, inl, inr, All, arith,
}
use ai_cloud_operator.Gateway.KeyStore.{
  key_of, key_secret, Stage, start, drawing, creating, rereading, done, advance,
}
use ai_cloud_operator.Gateway.Race.{
  Cell, stores, moved, cell_after, Step, here, there, Run, stop, then, IsGood, IsFull, starting,
}

pub key_of-key_secret : (key : String) → key_of (key_secret key) ≡ key
unfolding key_secret get_text lookup
key_of-key_secret key = refl

pub not_empty : (key : String) → key ≢ "" → (key == "") ≡ false
not_empty key ne = ground (arith, eq_iff key "")

moved-IsGood :
    (c : Cell) (key : String) (p : Stage)
    → key ≢ ""
    → IsFull c
    → IsGood c p
    → IsGood (cell_after c key p) (moved c key p)
unfolding advance stores is_kind ErrorKind-discrete
moved-IsGood none key start ne f g = tt
moved-IsGood (some k) key start ne f g =
    rw (key_of-key_secret k, not_empty k (f k refl)) (k, refl, refl)
moved-IsGood none key drawing ne f g = ne
moved-IsGood (some k) key drawing ne f g = ne
moved-IsGood none key (creating x) ne f g = (x, refl, ap some (key_of-key_secret x))
moved-IsGood (some k) key (creating x) ne f g = λ e. cc
moved-IsGood none key rereading ne f g = absurd (g refl)
moved-IsGood (some k) key rereading ne f g =
    rw (key_of-key_secret k, not_empty k (f k refl)) (k, refl, refl)
moved-IsGood none key (done r) ne f g = g
moved-IsGood (some k) key (done r) ne f g = g

-- A key that is stored stays.
cell_after-keeps :
    (c : Cell) (key k : String) (p : Stage) → c ≡ some k → cell_after c key p ≡ some k
unfolding stores
cell_after-keeps none key k p e = cc
cell_after-keeps (some j) key k p e = e

cell_after-IsFull :
    (c : Cell) (key : String) (p : Stage)
    → key ≢ ""
    → IsFull c
    → IsGood c p
    → IsFull (cell_after c key p)
unfolding advance stores is_kind ErrorKind-discrete
cell_after-IsFull none key start ne f g = f
cell_after-IsFull none key drawing ne f g = f
cell_after-IsFull none key (creating x) ne f g = λ k e empty. let same = key_of-key_secret x in g cc
cell_after-IsFull none key rereading ne f g = f
cell_after-IsFull none key (done r) ne f g = f
cell_after-IsFull (some j) key p ne f g = f

IsGood-grows :
    (c c' : Cell) (p : Stage) → ((k : String) → c ≡ some k → c' ≡ some k) → IsGood c p → IsGood c' p
IsGood-grows c c' start grows g = tt
IsGood-grows c c' drawing grows g = tt
IsGood-grows c c' (creating key) grows g = g
IsGood-grows c c' rereading grows g = elim (Option-cases c) [
  | inl e ↦ absurd (g e)
  | inr (k, e) ↦ λ gone. let kept = grows k e in cc
]
IsGood-grows c c' (done r) grows (key, same, held) = (key, same, grows key held)

-- The store's key is not empty, and each replica stands well.
abbrev pub IsSafe : Cell × List Stage → Type 0
IsSafe (c, ps) = IsFull c × All (IsGood c) ps

IsGood-grows-All :
    (c c' : Cell) (ps : List Stage)
    → ((k : String) → c ≡ some k → c' ≡ some k)
    → All (IsGood c) ps
    → All (IsGood c') ps
IsGood-grows-All c c' [] grows h = tt
IsGood-grows-All c c' (p ∷ ps) grows (g, h) =
    (IsGood-grows c c' p grows g, IsGood-grows-All c c' ps grows h)

Step-keeps :
    {c c' : Cell} {ps ps' : List Stage}
    → Step (c, ps) (c', ps')
    → (k : String) → c ≡ some k
    → c' ≡ some k
Step-keeps (here {c} {p} key ne live) k e = cell_after-keeps c key k p e
Step-keeps (there s) k e = Step-keeps s k e

pub Step-IsSafe : {u v : Cell × List Stage} → Step u v → IsSafe u → IsSafe v
Step-IsSafe (here {c} {p} {ps} key ne live) (f, (g, h)) = (
  cell_after-IsFull c key p ne f g,
  (
    moved-IsGood c key p ne f g,
    IsGood-grows-All c (cell_after c key p) ps (λ k. cell_after-keeps c key k p) h,
  ),
)
Step-IsSafe (there {c} {c'} {p} s) (f, (g, h)) =
    let rest = Step-IsSafe s (f, h) in (rest.0, (IsGood-grows c c' p (Step-keeps s) g, rest.1))

Run-IsSafe : {n : ℕ} {u v : Cell × List Stage} → Run n u v → IsSafe u → IsSafe v
Run-IsSafe stop h = h
Run-IsSafe (then s r) h = Run-IsSafe r (Step-IsSafe s h)

pub starting-IsGood : (c : Cell) (n : ℕ) → All (IsGood c) (starting n)
starting-IsGood c zero = tt
starting-IsGood c (suc n) = (tt, starting-IsGood c n)

-- However the calls of n replicas interleave, each replica that has ended has the key of the
-- store, so all of them sign with one key, and none of them has failed. The store starts with no
-- Secret or with one that has a key, and no drawn key is empty.
pub Run-agrees :
    (replicas n : ℕ) (c : Cell) (w : Cell × List Stage)
    → IsFull c
    → Run n (c, starting replicas) w
    → All
        (λ p. (r : Result String) → p ≡ done r → (key : String) × (r ≡ ok key) × (w.0 ≡ some key))
        w.1
Run-agrees replicas n c w f r = agree w.0 w.1 (Run-IsSafe r (f, starting-IsGood c replicas)).1
  where
    agree :
        (d : Cell) (ps : List Stage)
        → All (IsGood d) ps
        → All
            (λ p. (x : Result String) → p ≡ done x → (key : String) × (x ≡ ok key) × (d ≡ some key))
            ps
    agree d [] h = tt
    agree d (p ∷ ps) (g, h) = (λ x e. subst (IsGood d) e g, agree d ps h)
