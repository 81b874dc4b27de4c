-- ===== src/Api/Access.antt =====
-- internal/api/server.go: who passes the guard of the management API.
use Prim.Native.Char.{code}
use Prim.Native.String
use text.Mathlib.TextLemmas.{nil-append, cons-append}
use text.Mathlib.TextEquality.{Char-path}
use ai_cloud_operator.Base.{
  String, List, some, ◌==◌, eqb, eq_iff, eq_refl, Option-cases, Bool-cases, ◌≡◌, ◌≢◌, refl, sym,
  ◌∙◌, inl, inr, ◌⊎◌, arith,
}
use ai_cloud_operator.Base.Effects.{M}
use ai_cloud_operator.Base.Int.{ℤ}
use ai_cloud_operator.Api.World
use ai_cloud_operator.Api.Guards.{cut_prefix, admit, require_deploy_token}
use ai_cloud_operator.Api.Handlers.{handle_deploy, handle_get, handle_delete, handle_run_function}
use ai_cloud_operator.Api.Server.{Call, serve}

cut_prefix-joins : (p s rest : String) → cut_prefix p s ≡ some rest → s ≡ String.◌++◌ p rest
unfolding cut_prefix
cut_prefix-joins String.[] s rest e =
    let same : s ≡ rest = ground arith in same ∙ sym (nil-append rest)
cut_prefix-joins (String.◌∷◌ c p) String.[] rest e = cc
cut_prefix-joins (String.◌∷◌ c p) (String.◌∷◌ d s) rest e =
    elim (Bool-cases (eqb (code c) (code d))) [
      | inl hit ↦
          let same : c ≡ d = Char-path c d (ground arith) in
          let tail = cut_prefix-joins p s rest (ground arith) in
          rw (cons-append c p rest, same, tail) refl
      | inr miss ↦ absurd (ground arith)
    ]

cut_prefix-append : (p rest : String) → cut_prefix p (String.◌++◌ p rest) ≡ some rest
unfolding cut_prefix
cut_prefix-append String.[] rest = rw (nil-append rest) refl
cut_prefix-append (String.◌∷◌ c p) rest =
    let tail = cut_prefix-append p rest in rw (cons-append c p rest) (ground arith)

module _ (env : World.Env) where
  -- The header presents the deploy token, and there is one.
  pub record IsAuthorized (t : List World.Event) (authorization : String) : Type 0 where
    pub present : env.token t ≢ ""
    pub matches : authorization ≡ String.◌++◌ "Bearer " (env.token t)

  -- The answer of the guard to a caller it turns away.
  pub data Refused : World.Response → Type 0 where
    missing : (message : String) → Refused (World.error 401 World.auth_missing_token message)
    invalid : (message : String) → Refused (World.error 401 World.auth_invalid_token message)

  pub IsAuthorized-passes :
      (t : List World.Event) (authorization : String) (next : M World.Event World.Response)
      → IsAuthorized t authorization
      → require_deploy_token env authorization next t ≡ next t
  unfolding require_deploy_token admit
  IsAuthorized-passes t authorization next a =
      let cut = cut_prefix-append "Bearer " (env.token t) in
      let absent = a.present in
      rw (a.matches, require_deploy_token, cut)
        (ground (arith, eq_refl (env.token t), eq_iff (env.token t) ""))

  abbrev no_token : World.Response
  no_token = World.error 401 World.auth_missing_token "missing bearer token"

  abbrev bad_token : World.Response
  bad_token = World.error 401 World.auth_invalid_token "invalid bearer token"

  pub require_deploy_token-cases :
      (t : List World.Event) (authorization : String) (next : M World.Event World.Response)
      → IsAuthorized t authorization
        ⊎ ((r : World.Response) × Refused r
            × (require_deploy_token env authorization next t ≡ (r, t)))
  unfolding require_deploy_token admit
  require_deploy_token-cases t authorization next =
      elim (Option-cases (cut_prefix "Bearer " authorization)) [
        | inl f ↦ inr (no_token, missing _, rw (require_deploy_token, f) refl)
        | inr (presented, f) ↦ elim (Bool-cases (presented == "")) [
          | inl empty ↦ inr (no_token, missing _, rw (require_deploy_token, f, admit, empty) refl)
          | inr full ↦ elim (Bool-cases (env.token t == "")) [
            | inl unset ↦
                inr (bad_token, invalid _, rw (require_deploy_token, f, admit, full, unset) refl)
            | inr set ↦ elim (Bool-cases (presented == env.token t)) [
              | inr other ↦
                  inr (
                    bad_token,
                    invalid _,
                    rw (require_deploy_token, f, admit, full, set, other) refl,
                  )
              | inl same ↦
                  let equal = (eq_iff presented (env.token t)).0 same in
                  inl (record {
                    present = λ none. ground (arith, eq_iff (env.token t) "");
                    matches = rw (← equal) (cut_prefix-joins "Bearer " authorization presented f);
                  })
            ]
          ]
        ]
      ]

  require_deploy_token-refuses :
      (t : List World.Event) (authorization : String) (next : M World.Event World.Response)
      → ¬ IsAuthorized t authorization
      → (r : World.Response) × Refused r × (require_deploy_token env authorization next t ≡ (r, t))
  require_deploy_token-refuses t authorization next a =
      elim (require_deploy_token-cases t authorization next) [
        | inl b ↦ absurd (a b)
        | inr refused ↦ refused
      ]

  -- The calls of the management API, each with its header and its handler.
  pub data Managed : Call → String → M World.Event World.Response → Type 0 where
    deploy : (a body : String) → Managed (Call.deploy a body) a (handle_deploy env body)
    read : (a name : String) → Managed (Call.read a name) a (handle_get env name)
    remove : (a name : String) → Managed (Call.remove a name) a (handle_delete env name)
    run :
        (a name key body : String)
        → Managed (Call.run a name key body) a (handle_run_function env name key body)

module _ (env : World.Env) (unix : ℤ → ℤ) where
  serve-Managed :
      {c : Call} {authorization : String} {next : M World.Event World.Response}
      → Managed env c authorization next
      → serve env unix c ≡ require_deploy_token env authorization next
  unfolding serve
  serve-Managed (deploy a body) = refl
  serve-Managed (read a name) = refl
  serve-Managed (remove a name) = refl
  serve-Managed (run a name key body) = refl

  -- Each call of the management API reaches its handler exactly where its header is "Bearer " and
  -- then the deploy token, which is not empty; in every other case the answer is a 401 that blames
  -- the token, and nothing is called.
  pub serve-deploy_token :
      (t : List World.Event) (c : Call) (authorization : String)
      (next : M World.Event World.Response)
      → Managed env c authorization next
      → (IsAuthorized env t authorization → serve env unix c t ≡ next t)
        × (¬ IsAuthorized env t authorization
            → (r : World.Response) × Refused env r × (serve env unix c t ≡ (r, t)))
  serve-deploy_token t c authorization next m =
      let same = serve-Managed m in
      rw same (
        IsAuthorized-passes env t authorization next,
        require_deploy_token-refuses env t authorization next,
      )
