-- ===== src/Catalog/Params.antt =====
-- internal/catalog/registry.go: resolving the parameters of a template or an operation.
use Prim.Native.String.{len}
use ai_cloud_operator.Base.{
  String, List, [], ◌∷◌, Option, none, some, Bool, true, false, not, ◌&&◌, ◌||◌, ◌==◌, concat,
  lookup, insert, is_some, GoError, leaf, errorf, ErrorKind, Result, ok, err, if◌then◌else◌,
}
use ai_cloud_operator.Base.Int.{ℤ, pos, leb_ℤ, ltb_ℤ}
use ai_cloud_operator.Catalog.Types.{
  Value, null, Literal, Params, Visibility, equals, not_equals, one_of, other, VisibilityOp,
  Validation, Parameter, Library,
}

unfoldable pub of_literal : Literal → Value
of_literal (Literal.bool b) = Value.bool b
of_literal (Literal.float x) = Value.float x
of_literal (Literal.text s) = Value.text s

-- `==` of an `any` with a literal: the same dynamic type, and the same value.
unfoldable pub eq_literal : Value → Literal → Bool
eq_literal (Value.bool true) (Literal.bool b) = b
eq_literal (Value.bool false) (Literal.bool b) = not b
eq_literal (Value.float x) (Literal.float y) = leb_ℤ x y && leb_ℤ y x
eq_literal (Value.text s) (Literal.text t) = s == t
eq_literal _ _ = false

-- slices.Contains.
unfoldable pub contains : List Literal → Value → Bool
contains [] v = false
contains (l ∷ ls) v = eq_literal v l || contains ls v

-- `params[key]`: nil where the key is missing.
unfoldable pub get_value : Params → String → Value
unfolding lookup
get_value m k = elim (lookup k m) [ none ↦ null | some v ↦ v ]

unfoldable pub eval_op : VisibilityOp → Visibility → Value → Bool
eval_op equals v actual = eq_literal actual v.value
eval_op not_equals v actual = not (eq_literal actual v.value)
eval_op one_of v actual = contains v.values actual
eval_op other v actual = true

unfoldable pub eval_visibility : Visibility → Value → Bool
eval_visibility v actual = eval_op v.op v actual

-- `v != nil && v != ""`.
unfoldable pub is_present : Value → Bool
is_present null = false
is_present (Value.text s) = not (s == "")
is_present _ = true

unfoldable pub is_visible : Parameter → Params → Bool
is_visible p m = elim p.visibility [
  | none ↦ true
  | some v ↦ eval_visibility v (get_value m v.depends_on)
]

-- One round of the first loop.
unfoldable pub with_default : Parameter → Params → Params
with_default p m =
    if is_some (lookup p.key m)
    then m
    else elim p.default [ none ↦ m | some d ↦ insert p.key (of_literal d) m ]

unfoldable pub apply_defaults : List Parameter → Params → Params
apply_defaults [] m = m
apply_defaults (p ∷ ps) m = apply_defaults ps (with_default p m)

unfoldable pub param_string : Params → String → String → String
param_string m key fallback = elim (lookup key m) [
  | some (Value.text s) ↦ if s == "" then fallback else s
  | _ ↦ fallback
]

module _ (lib : Library) where
  unfoldable pub as_float64 : Value → Option ℤ
  as_float64 (Value.float x) = some x
  as_float64 (Value.int n) = some (lib.float_of_int n)
  as_float64 (Value.int32 n) = some (lib.float_of_int n)
  as_float64 _ = none

  abbrev failure : List String → Option GoError
  failure parts = some (leaf ErrorKind.plain (concat parts))

  unfoldable pub check_max : Option ℤ → ℤ → Option GoError
  check_max none x = none
  check_max (some hi) x =
      if ltb_ℤ hi x then failure ("must be <= " ∷ lib.show_float hi ∷ []) else none

  -- The bounds on a number: the lower one is checked first.
  unfoldable pub check_range : Option ℤ → Option ℤ → ℤ → Option GoError
  check_range none hi x = check_max hi x
  check_range (some lo) hi x =
      if ltb_ℤ x lo then failure ("must be >= " ∷ lib.show_float lo ∷ []) else check_max hi x

  unfoldable pub check_regex : String → String → Option GoError
  check_regex pattern s = if pattern == "" then none else elim (lib.match_string pattern s) [
    | err e ↦
        some (errorf (concat ("invalid validation regex " ∷ lib.quote pattern ∷ ": " ∷ [])) e "")
    | ok true ↦ none
    | ok false ↦ failure ("must match pattern " ∷ lib.quote pattern ∷ [])
  ]

  -- The bound on a text's bytes, then the pattern.
  unfoldable pub check_text : Option ℤ → String → String → Option GoError
  check_text none pattern s = check_regex pattern s
  check_text (some most) pattern s =
      if ltb_ℤ most (pos (len s))
      then failure ("must be at most " ∷ lib.show_int most ∷ " characters" ∷ [])
      else check_regex pattern s

  unfoldable pub check_text_value : Validation → Value → Option GoError
  check_text_value rule (Value.text s) = check_text rule.max_length rule.regex s
  check_text_value rule _ = none

  unfoldable pub check_validation : Validation → Value → Option GoError
  check_validation rule value =
      let number : Option GoError = elim (as_float64 value) [
        | none ↦ none
        | some x ↦ check_range rule.min rule.max x
      ] in
      elim number [ some e ↦ some e | none ↦ check_text_value rule value ]

  -- The body of the second loop for a visible parameter.
  unfoldable pub check_present : Parameter → Value → Option GoError
  check_present p v =
      if p.validation.required && not (is_present v)
      then failure ("missing required parameter " ∷ lib.quote p.key ∷ [])
      else if is_present v
      then elim (check_validation p.validation v) [
        | none ↦ none
        | some e ↦ some (errorf (concat ("parameter " ∷ lib.quote p.key ∷ " invalid: " ∷ [])) e "")
      ]
      else none

  -- One round of the second loop.
  unfoldable pub check_parameter : Parameter → Params → Option GoError
  check_parameter p m = if is_visible p m then check_present p (get_value m p.key) else none

  unfoldable pub check_parameters : List Parameter → Params → Option GoError
  check_parameters [] m = none
  check_parameters (p ∷ ps) m =
      let rest = check_parameters ps m in
      elim (check_parameter p m) [ some e ↦ some e | none ↦ rest ]

  unfoldable pub resolve_params : List Parameter → Params → Result Params
  resolve_params ps raw =
      let resolved = apply_defaults ps raw in
      elim (check_parameters ps resolved) [ none ↦ ok resolved | some e ↦ err e ]

  unfoldable pub param_int32 : Params → String → ℤ → ℤ
  param_int32 m key fallback = elim (get_value m key) [
    | Value.float x ↦ lib.int32_of_float x
    | Value.int32 n ↦ n
    | Value.int n ↦ lib.int32_of_int n
    | _ ↦ fallback
  ]
