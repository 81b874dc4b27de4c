-- ===== src/Base/Errors.antt =====
-- Go's `error` values. A leaf has a kind, by which `errors.Is` and the `apierrors` tests know it,
-- and a text; `errorf pre e post` is `fmt.Errorf(pre + "%w" + post, e)`, which wraps it.
use Prim.Native.String.{String}
use mathlib.Core.Path.{◌≡◌, refl}
use mathlib.Core.Logic.{◌⊎◌, inl, inr, ite}
use mathlib.Core.Bool.{Bool, true, false}
use mathlib.Core.List.{[], ◌∷◌}
use ai_cloud_operator.Base.Text.{concat}

pub data ErrorKind : Type 0 where
  plain not_found conflict already_exists : ErrorKind
  unauthorized lifecycle_stale : ErrorKind
  image_required template_unknown : ErrorKind
  unknown_template invalid_config : ErrorKind
  malformed_token invalid_signature scope_mismatch expired : ErrorKind

unfoldable pub ErrorKind-discrete : Discrete ErrorKind
ErrorKind-discrete = hlevel

pub data GoError : Type 0 where
  leaf : ErrorKind → String → GoError
  errorf : String → GoError → String → GoError

-- `err.Error()`.
abbrev pub message : GoError → String
message (leaf k s) = s
message (errorf pre e post) = concat (pre ∷ message e ∷ post ∷ [])

-- `errors.Is(err, …)`, `apierrors.IsNotFound(err)` and so on: the chain is unwrapped.
unfoldable pub is_kind : ErrorKind → GoError → Bool
unfolding ErrorKind-discrete
is_kind k (leaf j s) = ite (ErrorKind-discrete j k) true false
is_kind k (errorf pre e post) = is_kind k e

-- A result `(T, error)`: the value counts only where the error is nil.
pub data Result {ℓ} (A : Type ℓ) : Type ℓ where
  ok : A → Result A
  err : GoError → Result A

pub Result-cases {ℓ} :
    {A : Type ℓ} (r : Result A) → ((a : A) × (r ≡ ok a)) ⊎ ((e : GoError) × (r ≡ err e))
Result-cases (ok a) = inl (a, refl)
Result-cases (err e) = inr (e, refl)
