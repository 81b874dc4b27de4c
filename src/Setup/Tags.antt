-- ===== src/Setup/Tags.antt =====
-- cmd/main.go: the tags that setupConvexIntegration reads.
use ai_cloud_operator.Base.{
  String, List, [], ◌∷◌, Option, none, some, ◌==◌, eq_iff, Bool-cases, ◌≡◌, ◌≢◌, refl, ◌↔◌, inl,
  inr, All, arith,
}
use ai_cloud_operator.Setup.World.{Env}
use ai_cloud_operator.Setup.Integration.{trimmed_tags, split_commas, operator_tags}

module _ (env : Env) where
  trimmed_tags-nonempty : (tags : List String) → All (λ x. x ≢ "") (trimmed_tags env tags)
  unfolding trimmed_tags
  trimmed_tags-nonempty [] = tt
  trimmed_tags-nonempty (tag ∷ rest) = elim (Bool-cases (env.trim_space tag == "")) [
    | inl f ↦ rw (trimmed_tags, f) (trimmed_tags-nonempty rest)
    | inr f ↦
        rw (trimmed_tags, f)
          (λ x. ground (arith, eq_iff (env.trim_space tag) ""), trimmed_tags-nonempty rest)
  ]

  pub operator_tags-none : (raw : Option String) → (operator_tags env raw ≡ none) ↔ (raw ≡ none)
  unfolding operator_tags
  operator_tags-none none = (λ e. refl, λ e. refl)
  operator_tags-none (some raw) = (λ e. absurd (ground arith), λ e. absurd (ground arith))

  pub operator_tags-nonempty :
      (raw : Option String) (tags : List String)
      → operator_tags env raw ≡ some tags
      → All (λ x. x ≢ "") tags
  unfolding operator_tags
  operator_tags-nonempty none tags e = absurd (ground arith)
  operator_tags-nonempty (some raw) tags e = elim (Bool-cases (raw == "")) [
    | inl f ↦ let same : [] ≡ tags = ground arith in rw (← same) tt
    | inr f ↦
        let same : trimmed_tags env (split_commas raw) ≡ tags = ground arith in
        rw (← same) (trimmed_tags-nonempty (split_commas raw))
  ]
