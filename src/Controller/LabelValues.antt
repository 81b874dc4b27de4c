-- ===== src/Controller/LabelValues.antt =====
-- internal/controller/workload_controller.go: `sanitizeLabelValue` against the rule for labels.
use Prim.Native.String.{len}
use ai_cloud_operator.Base.{
  ℕ, String, List, [], ◌∷◌, some, true, eq_iff, ◌≡◌, ◌≢◌, ◌↔◌, ◌≤◌, All, arith,
}
use ai_cloud_operator.Controller.Render.{
  codes, is_alnum, is_label_char, ends_well, matches_label_value, max_label_value_len,
  sanitize_label_value,
}

abbrev pub IsAlnum : ℕ → Type 0
IsAlnum c = is_alnum c ≡ true

abbrev pub IsLabelChar : ℕ → Type 0
IsLabelChar c = is_label_char c ≡ true

-- The last character of the text, or `d` where there is none.
abbrev pub last_or : ℕ → List ℕ → ℕ
last_or d [] = d
last_or d (c ∷ cs) = last_or c cs

-- The Kubernetes rule: 1 to 63 characters, each a letter, a digit, '.', '_' or '-', and the
-- first and the last a letter or a digit.
abbrev pub IsWellFormed : List ℕ → Type 0
IsWellFormed [] = ⊥
IsWellFormed (c ∷ cs) = All IsLabelChar (c ∷ cs) × IsAlnum c × IsAlnum (last_or c cs)

alnum_label : (c : ℕ) → IsAlnum c → IsLabelChar c
unfolding is_label_char
alnum_label c h = ground arith

ends_well_iff :
    (c : ℕ) (cs : List ℕ)
    → (ends_well (c ∷ cs) ≡ true) ↔ (All IsLabelChar (c ∷ cs) × IsAlnum (last_or c cs))
unfolding ends_well
ends_well_iff c [] = (λ h. ((alnum_label c h, tt), h), λ h. h.1)
ends_well_iff c (d ∷ cs) =
    let (fore, back) = ends_well_iff d cs in
    (
      λ h. let rest = fore (ground arith) in ((ground arith, rest.0), rest.1),
      λ h. let rest = back (h.0.1, h.1) in let first = h.0.0 in ground arith,
    )

matches_label_value_iff : (cs : List ℕ) → (matches_label_value cs ≡ true) ↔ IsWellFormed cs
unfolding matches_label_value
matches_label_value_iff [] = (λ h. cc, λ h. elim h [ ])
matches_label_value_iff (c ∷ []) = (λ h. ((alnum_label c h, tt), h, h), λ h. h.1)
matches_label_value_iff (c ∷ d ∷ cs) =
    let (fore, back) = ends_well_iff d cs in
    (
      λ h.
          let first : IsAlnum c = ground arith in
          let rest = fore (ground arith) in ((alnum_label c first, rest.0), first, rest.1),
      λ h. let rest = back (h.0.1, h.2) in let first = h.1 in ground arith,
    )

-- A user id becomes a label, unchanged, exactly when it is a well-formed label value of at most 63
-- bytes.
pub sanitize_label_value_iff :
    (raw v : String)
    → (sanitize_label_value raw ≡ some v)
      ↔ ((v ≡ raw) × (raw ≢ "") × (len raw ≤ max_label_value_len) × IsWellFormed (codes raw))
unfolding sanitize_label_value
sanitize_label_value_iff raw v = (
  λ h. (
    ground arith,
    λ empty. ground (arith, eq_iff raw ""),
    ground arith,
    (matches_label_value_iff (codes raw)).0 (ground arith),
  ),
  λ (same, ne, short, good).
      let fits = (matches_label_value_iff (codes raw)).1 good in ground (arith, eq_iff raw ""),
)
