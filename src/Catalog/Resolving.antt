-- ===== src/Catalog/Resolving.antt =====
-- internal/catalog/registry.go: what `ResolveParams` accepts, and the map that it returns.
use ai_cloud_operator.Base.{
  String, List, [], ◌∷◌, Option, none, some, true, ◌==◌, eq_iff, ◌≡◌, refl, sym, ap, ◌∙◌, ◌↔◌, ◌⊎◌,
  inl, inr, eq_refl, lookup, lookup-insert, ok, Bool-cases, Option-cases, is_some, All, arith,
  if◌then◌else◌,
}
use ai_cloud_operator.Catalog.Types.{Value, Params, Parameter, Library}
use ai_cloud_operator.Catalog.Params.{
  of_literal, get_value, is_visible, is_present, with_default, apply_defaults, check_validation,
  check_present, check_parameter, check_parameters, resolve_params,
}
use ai_cloud_operator.Catalog.Showing.{IsShown, IsGiven, is_visible_iff, is_present_iff}
use ai_cloud_operator.Catalog.Validating.{Satisfies, check_validation_iff}

-- The first default that the list declares for a key.
unfoldable pub default_of : String → List Parameter → Option Value
default_of k [] = none
default_of k (p ∷ ps) =
    let rest = default_of k ps in
    if p.key == k then elim p.default [ none ↦ rest | some d ↦ some (of_literal d) ] else rest

abbrev pub or_else {ℓ} : {A : Type ℓ} → Option A → Option A → Option A
or_else none o = o
or_else (some a) o = some a

lookup-with_default :
    (p : Parameter) (m : Params) (k : String)
    → lookup k (with_default p m)
      ≡ or_else (lookup k m) (
          if p.key == k
          then elim p.default [ none ↦ none | some d ↦ some (of_literal d) ]
          else none)
unfolding with_default
lookup-with_default p m k = elim (Option-cases p.default) [
  | inl e ↦ ground (arith, same_key)
  | inr (d, e) ↦ ground (arith, same_key, lookup-insert p.key k (of_literal d) m)
]
  where
    same_key : (p.key == k) ≡ true → lookup p.key m ≡ lookup k m
    same_key h = ap (λ j. lookup j m) ((eq_iff p.key k).0 h)

-- A value that the caller supplied stays; else the key gets its first declared default.
pub lookup-apply_defaults :
    (ps : List Parameter) (raw : Params) (k : String)
    → lookup k (apply_defaults ps raw) ≡ or_else (lookup k raw) (default_of k ps)
unfolding apply_defaults default_of
lookup-apply_defaults [] raw k = ground arith
lookup-apply_defaults (p ∷ ps) raw k =
    ground (arith, lookup-apply_defaults ps (with_default p raw) k, lookup-with_default p raw k)

-- A default has nothing left to do for the parameter.
abbrev IsFilled : Params → Parameter → Type 0
IsFilled m p = (p.default ≡ none) ⊎ (is_some (lookup p.key m) ≡ true)

apply_defaults-IsFilled :
    (ps : List Parameter) (m : Params) → All (IsFilled m) ps → apply_defaults ps m ≡ m
unfolding apply_defaults with_default
apply_defaults-IsFilled [] m h = refl
apply_defaults-IsFilled (p ∷ ps) m (h, hs) =
    let same : with_default p m ≡ m = ground arith in rw same (apply_defaults-IsFilled ps m hs)

IsFilled-with_default : (p : Parameter) (m : Params) → IsFilled (with_default p m) p
IsFilled-with_default p m = elim (Option-cases p.default) [
  | inl e ↦ inl e
  | inr (d, e) ↦ inr (ground (arith, lookup-with_default p m p.key, eq_refl p.key))
]

apply_defaults-keeps_IsFilled :
    (ps : List Parameter) (p : Parameter) (m : Params)
    → IsFilled m p
    → IsFilled (apply_defaults ps m) p
apply_defaults-keeps_IsFilled ps p m (inl e) = inl e
apply_defaults-keeps_IsFilled ps p m (inr e) =
    inr (ground (arith, lookup-apply_defaults ps m p.key))

IsFilled-apply_defaults :
    (ps : List Parameter) (raw : Params) → All (IsFilled (apply_defaults ps raw)) ps
unfolding apply_defaults
IsFilled-apply_defaults [] raw = tt
IsFilled-apply_defaults (p ∷ ps) raw = (
  apply_defaults-keeps_IsFilled ps p (with_default p raw) (IsFilled-with_default p raw),
  IsFilled-apply_defaults ps (with_default p raw),
)

-- A map has the values that the caller supplied, and for other keys their first defaults.
abbrev pub IsFilledIn : List Parameter → Params → Params → Type 0
IsFilledIn ps raw m = (k : String) → lookup k m ≡ or_else (lookup k raw) (default_of k ps)

module _ (lib : Library) where
  -- What a resolved map owes to one parameter.
  pub record Accepted (m : Params) (p : Parameter) : Type 0 where
    pub supplied : IsShown p m → p.validation.required ≡ true → IsGiven (get_value m p.key)
    pub valid :
        IsShown p m → IsGiven (get_value m p.key) → Satisfies lib p.validation (get_value m p.key)

  check_present_iff :
      (p : Parameter) (v : Value)
      → (check_present lib p v ≡ none) ↔ (
          (p.validation.required ≡ true → is_present v ≡ true)
          × (is_present v ≡ true → check_validation lib p.validation v ≡ none))
  unfolding check_present
  check_present_iff p v = (λ e. (λ r. ground arith, λ q. ground arith), λ h. ground arith)

  check_parameter_iff :
      (p : Parameter) (m : Params) → (check_parameter lib p m ≡ none) ↔ Accepted m p
  unfolding check_parameter
  check_parameter_iff p m =
      let v = get_value m p.key in
      let shown = is_visible_iff p m in
      let given = is_present_iff v in
      (
        λ e. record {
          supplied = λ seen r.
              let visible = shown.1 seen in
              given.0 (((check_present_iff p v).0 (ground arith)).0 r);
          valid = λ seen here.
              let visible = shown.1 seen in
              (check_validation_iff lib p.validation v).0
                (((check_present_iff p v).0 (ground arith)).1 (given.1 here));
        },
        λ a. elim (Bool-cases (is_visible p m)) [
          | inl seen ↦
              rw (seen, check_parameter)
                ((check_present_iff p v).1 (
                  λ r. given.1 (a.supplied (shown.0 seen) r),
                  λ here.
                      (check_validation_iff lib p.validation v).1
                        (a.valid (shown.0 seen) (given.0 here)),
                ))
          | inr hidden ↦ rw (hidden, check_parameter)
        ],
      )

  check_parameters_iff :
      (ps : List Parameter) (m : Params) → (check_parameters lib ps m ≡ none) ↔ All (Accepted m) ps
  unfolding check_parameters
  check_parameters_iff [] m = (λ e. tt, λ h. refl)
  check_parameters_iff (p ∷ ps) m = (
    λ e. ((check_parameter_iff p m).0 (ground arith), (check_parameters_iff ps m).0 (ground arith)),
    λ (a, h).
        let first = (check_parameter_iff p m).1 a in
        let others = (check_parameters_iff ps m).1 h in ground arith,
  )

  -- Resolution succeeds exactly when the map with the defaults put in is accepted by every
  -- parameter, and that map is the result. It has every value that the caller supplied, and for the
  -- other keys the first default that is declared, if any. The length of a text counts its bytes.
  pub resolve_params_iff :
      (ps : List Parameter) (raw m : Params)
      → (resolve_params lib ps raw ≡ ok m)
        ↔ ((m ≡ apply_defaults ps raw) × IsFilledIn ps raw m × All (Accepted m) ps)
  unfolding resolve_params
  resolve_params_iff ps raw m = (
    λ e.
        let same : apply_defaults ps raw ≡ m = ground arith in
        (
          sym same,
          λ k. rw (← same) (lookup-apply_defaults ps raw k),
          rw (← same) ((check_parameters_iff ps _).0 (ground arith)),
        ),
    λ (same, filled, accepted).
        let clean = rw same at ((check_parameters_iff ps m).1 accepted) in
        rw same (rw (clean, resolve_params)),
  )

  -- Resolving a resolved map again gives it back.
  resolve_params_idem :
      (ps : List Parameter) (raw m : Params)
      → resolve_params lib ps raw ≡ ok m
      → resolve_params lib ps m ≡ ok m
  resolve_params_idem ps raw m h =
      let (same, filled, accepted) = (resolve_params_iff ps raw m).0 h in
      let still : m ≡ apply_defaults ps m =
        rw same (sym (apply_defaults-IsFilled ps _ (IsFilled-apply_defaults ps raw))) in
      (resolve_params_iff ps m m).1
        (still, (λ k. ap (lookup k) still ∙ lookup-apply_defaults ps m k), accepted)
