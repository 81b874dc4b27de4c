-- ===== src/Catalog/Validating.antt =====
-- internal/catalog/registry.go: `checkValidation` against a declarative reading of a Validation.
use Prim.Native.String.{len}
use ai_cloud_operator.Base.{
  String, Option, none, some, true, ◌==◌, eq_iff, ◌≡◌, refl, ◌≢◌, ◌↔◌, ok, inl, inr, Bool-cases,
  arith, Option-cases,
}
use ai_cloud_operator.Base.Int.{ℤ, pos, ◌≤ℤ◌}
use ai_cloud_operator.Catalog.Types.{Value, Validation, Library}
use ai_cloud_operator.Catalog.Params.{
  as_float64, check_max, check_range, check_regex, check_text, check_text_value, check_validation,
}

module _ (lib : Library) where
  -- What a rule asks of a value: bounds of a number, length in bytes and pattern of a text. A constraint
  -- that does not fit the value's type asks nothing.
  pub record Satisfies (rule : Validation) (v : Value) : Type 0 where
    pub at_least : (x lo : ℤ) → as_float64 lib v ≡ some x → rule.min ≡ some lo → lo ≤ℤ x
    pub at_most : (x hi : ℤ) → as_float64 lib v ≡ some x → rule.max ≡ some hi → x ≤ℤ hi
    pub short_enough :
        (s : String) (most : ℤ)
        → v ≡ Value.text s
        → rule.max_length ≡ some most
        → pos (len s) ≤ℤ most
    pub matching :
        (s : String) → v ≡ Value.text s → rule.regex ≢ "" → lib.match_string rule.regex s ≡ ok true

  check_range_iff :
      (lo hi : Option ℤ) (x : ℤ)
      → (check_range lib lo hi x ≡ none)
        ↔ (((l : ℤ) → lo ≡ some l → l ≤ℤ x) × ((h : ℤ) → hi ≡ some h → x ≤ℤ h))
  unfolding check_range check_max
  check_range_iff none none x = (λ e. (λ l c. cc, λ h c. cc), λ e. refl)
  check_range_iff none (some hi) x =
      (λ e. (λ l c. cc, λ h c. ground arith), λ r. let b = r.1 hi refl in ground arith)
  check_range_iff (some lo) none x =
      (λ e. (λ l c. ground arith, λ h c. cc), λ r. let b = r.0 lo refl in ground arith)
  check_range_iff (some lo) (some hi) x = (
    λ e. (λ l c. ground arith, λ h c. ground arith),
    λ r. let b = r.0 lo refl in let d = r.1 hi refl in ground arith,
  )

  check_regex_iff :
      (pattern s : String)
      → (check_regex lib pattern s ≡ none) ↔ (pattern ≢ "" → lib.match_string pattern s ≡ ok true)
  unfolding check_regex
  check_regex_iff pattern s = (
    λ e ne. ground (arith, eq_iff pattern ""),
    λ h. elim (Bool-cases (pattern == "")) [
      | inl empty ↦ rw empty
      | inr full ↦ let m = h (λ e. ground (arith, eq_iff pattern "")) in ground arith
    ],
  )

  check_text_iff :
      (most : Option ℤ) (pattern s : String)
      → (check_text lib most pattern s ≡ none) ↔ (
          ((m : ℤ) → most ≡ some m → pos (len s) ≤ℤ m)
          × (pattern ≢ "" → lib.match_string pattern s ≡ ok true))
  unfolding check_text
  check_text_iff none pattern s =
      (λ e. (λ m c. cc, (check_regex_iff pattern s).0 e), λ r. (check_regex_iff pattern s).1 r.1)
  check_text_iff (some most) pattern s = (
    λ e. (λ m c. ground arith, (check_regex_iff pattern s).0 (ground arith)),
    λ r. let short = r.0 most refl in let fits = (check_regex_iff pattern s).1 r.1 in ground arith,
  )

  -- The two halves of `check_validation`, as the code tests them one after the other.
  check_validation_halves :
      (rule : Validation) (v : Value)
      → (check_validation lib rule v ≡ none) ↔ (
          ((x : ℤ) → as_float64 lib v ≡ some x → check_range lib rule.min rule.max x ≡ none)
          × (check_text_value lib rule v ≡ none))
  unfolding check_validation
  check_validation_halves rule v = (
    λ e. (λ x f. ground arith, ground arith),
    λ r. elim (Option-cases (as_float64 lib v)) [
      | inl e ↦ ground arith
      | inr (x, e) ↦ let range = r.0 x e in ground arith
    ],
  )

  check_text_value_iff :
      (rule : Validation) (v : Value)
      → (check_text_value lib rule v ≡ none)
        ↔ ((s : String) → v ≡ Value.text s → check_text lib rule.max_length rule.regex s ≡ none)
  unfolding check_text_value
  check_text_value_iff rule (Value.text s) = (λ e t same. ground arith, λ h. h s refl)
  check_text_value_iff rule v = (λ e t same. cc, λ h. refl)

  -- `check_validation` finds no fault exactly when the value satisfies the rule.
  pub check_validation_iff :
      (rule : Validation) (v : Value) → (check_validation lib rule v ≡ none) ↔ Satisfies rule v
  check_validation_iff rule v = (
    λ e.
        let (number, text) = (check_validation_halves rule v).0 e in
        record {
          at_least = λ x lo f. ((check_range_iff rule.min rule.max x).0 (number x f)).0 lo;
          at_most = λ x hi f. ((check_range_iff rule.min rule.max x).0 (number x f)).1 hi;
          short_enough = λ s most t.
              ((check_text_iff rule.max_length rule.regex s).0
                  ((check_text_value_iff rule v).0 text s t)).0
                most;
          matching = λ s t.
              ((check_text_iff rule.max_length rule.regex s).0
                ((check_text_value_iff rule v).0 text s t)).1;
        },
    λ r. (check_validation_halves rule v).1 (
      λ x f. (check_range_iff rule.min rule.max x).1 (λ l. r.at_least x l f, λ h. r.at_most x h f),
      (check_text_value_iff rule v).1 λ s t.
          (check_text_iff rule.max_length rule.regex s).1
            (λ m. r.short_enough s m t, r.matching s t),
    ),
  )
