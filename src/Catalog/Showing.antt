-- ===== src/Catalog/Showing.antt =====
-- internal/catalog/registry.go: which values count as given, and which conditions hold.
use ai_cloud_operator.Base.{
  List, [], ◌∷◌, true, false, ◌==◌, ◌&&◌, eq_iff, ◌≡◌, ◌≢◌, refl, ap, ◌↔◌, inl, inr, Any, here,
  there, Bool-cases, Option-cases, none, some, arith,
}
use ai_cloud_operator.Base.Int.{ℤ, pos, negsuc, leb_ℤ}
use ai_cloud_operator.Catalog.Types.{Value, Literal, VisibilityOp, Visibility, Parameter, Params}
use ai_cloud_operator.Catalog.Params.{
  of_literal, eq_literal, contains, eval_op, is_present, get_value, eval_visibility, is_visible,
}

-- A value that counts as given: not null, and not the empty text.
abbrev pub IsGiven : Value → Type 0
IsGiven v = (v ≢ Value.null) × (v ≢ Value.text "")

pub is_present_iff : (v : Value) → (is_present v ≡ true) ↔ IsGiven v
unfolding is_present
is_present_iff Value.null = (λ e. absurd (ground arith), λ (f, _). absurd (f refl))
is_present_iff (Value.text s) = (
  λ e. (λ f. cc, λ f. let same : s ≡ "" = cc in let k = (eq_iff s "").1 same in ground arith),
  λ (_, f).
      ground (arith, λ (e : (s == "") ≡ true). f (ap (λ x. Value.text x) ((eq_iff s "").0 e))),
)
is_present_iff _ = (λ e. (λ f. cc, λ f. cc), λ h. refl)

-- The parameter is shown: it has no condition, or the value that it depends on is, is not or is
-- among the ones that the condition names; a condition with another operator asks nothing.
abbrev pub Holds : VisibilityOp → Visibility → Value → Type 0
Holds VisibilityOp.equals c v = v ≡ of_literal c.value
Holds VisibilityOp.not_equals c v = v ≢ of_literal c.value
Holds VisibilityOp.one_of c v = Any (λ l. v ≡ of_literal l) c.values
Holds VisibilityOp.other c v = Unit

both_ways : (x y : ℤ) → (leb_ℤ x y && leb_ℤ y x) ≡ true → x ≡ y
both_ways (pos m) (pos n) e = ground arith
both_ways (pos m) (negsuc n) e = ground arith
both_ways (negsuc m) (pos n) e = ground arith
both_ways (negsuc m) (negsuc n) e = ground arith

eq_literal_iff : (v : Value) (l : Literal) → (eq_literal v l ≡ true) ↔ (v ≡ of_literal l)
unfolding eq_literal of_literal
eq_literal_iff (Value.bool true) (Literal.bool true) = (λ e. refl, λ e. refl)
eq_literal_iff (Value.bool true) (Literal.bool false) = (λ e. cc, λ e. cc)
eq_literal_iff (Value.bool false) (Literal.bool true) = (λ e. cc, λ e. cc)
eq_literal_iff (Value.bool false) (Literal.bool false) = (λ e. refl, λ e. refl)
eq_literal_iff (Value.float x) (Literal.float y) = (
  λ e. ap (λ z. Value.float z) (both_ways x y (ground arith)),
  λ e. let same : x ≡ y = cc in rw same (ground arith),
)
eq_literal_iff (Value.text s) (Literal.text t) = (
  λ e. ap (λ x. Value.text x) ((eq_iff s t).0 e),
  λ e. let same : s ≡ t = cc in (eq_iff s t).1 same,
)
eq_literal_iff v l = (λ e. ground arith, λ e. ground arith)

contains-Any :
    (ls : List Literal) (v : Value) → contains ls v ≡ true → Any (λ l. v ≡ of_literal l) ls
unfolding contains
contains-Any [] v e = absurd (ground arith)
contains-Any (l ∷ ls) v e = elim (Bool-cases (eq_literal v l)) [
  | inl hit ↦ here ((eq_literal_iff v l).0 hit)
  | inr miss ↦ there (contains-Any ls v (ground arith))
]

Any-contains :
    (ls : List Literal) (v : Value) → Any (λ l. v ≡ of_literal l) ls → contains ls v ≡ true
unfolding contains
Any-contains [] v h = elim h [ ]
Any-contains (l ∷ ls) v (here e) = let hit = (eq_literal_iff v l).1 e in ground arith
Any-contains (l ∷ ls) v (there h) = let later = Any-contains ls v h in ground arith

pub eval_op_iff :
    (op : VisibilityOp) (c : Visibility) (v : Value) → (eval_op op c v ≡ true) ↔ Holds op c v
unfolding eval_op
eval_op_iff VisibilityOp.equals c v = eq_literal_iff v c.value
eval_op_iff VisibilityOp.not_equals c v = (
  λ e f. let k = (eq_literal_iff v c.value).1 f in ground arith,
  λ h. ground (arith, λ (e : eq_literal v c.value ≡ true). h ((eq_literal_iff v c.value).0 e)),
)
eval_op_iff VisibilityOp.one_of c v = (contains-Any c.values v, Any-contains c.values v)
eval_op_iff VisibilityOp.other c v = (λ e. tt, λ h. refl)

-- A parameter without a condition is shown; else it is where its condition holds in the map.
abbrev pub IsShown : Parameter → Params → Type 0
IsShown p m = elim p.visibility [ none ↦ Unit | some c ↦ Holds c.op c (get_value m c.depends_on) ]

pub is_visible_iff : (p : Parameter) (m : Params) → (is_visible p m ≡ true) ↔ IsShown p m
unfolding is_visible eval_visibility
is_visible_iff p m = elim (Option-cases p.visibility) [
  | inl e ↦ rw (is_visible, e) (λ h. tt, λ h. refl)
  | inr (c, e) ↦ rw (is_visible, e) (eval_op_iff c.op c (get_value m c.depends_on))
]
