-- ===== src/Gateway/Stuck.antt =====
-- internal/gateway/keystore.go: a Secret without a key.
use ai_cloud_operator.Base.{
  String, List, ◌∷◌, some, true, GoError, errorf, ErrorKind, is_kind, ok, err, Result-cases, eq_iff,
  ◌≡◌, inl, inr, arith,
}
use ai_cloud_operator.TokenStore.{Secret}
use ai_cloud_operator.Gateway.KeyStore.{
  Event, got_secret, drew_key, created_secret, Env, key_of, key_secret, no_key_data, reread,
  create_key, generate, load_or_generate,
}

module _ (env : Env) where
  create_key_fails :
      (s : Secret) (key : String) (t : List Event)
      → ((t' : List Event) → env.get_secret t' ≡ ok s)
      → key_of s ≡ ""
      → ((t' : List Event) (x : Secret)
          → (e : GoError) × (env.create_secret t' x ≡ some e)
            × (is_kind ErrorKind.already_exists e ≡ true))
      → (e : GoError) × ((create_key env key t).0 ≡ err e)
  unfolding create_key reread
  create_key_fails s key t got empty exists =
      let (e, f, g) = exists t (key_secret key) in
      let again = got (created_secret (key_secret key) ∷ t) in
      (no_key_data, ground (arith, eq_iff (key_of s) ""))

  -- Where the Secret exists, with no key in it, no call ever succeeds: the creation meets the
  -- object that is there.
  pub load_or_generate_stuck :
      (s : Secret) (t : List Event)
      → ((t' : List Event) → env.get_secret t' ≡ ok s)
      → key_of s ≡ ""
      → ((t' : List Event) (x : Secret)
          → (e : GoError) × (env.create_secret t' x ≡ some e)
            × (is_kind ErrorKind.already_exists e ≡ true))
      → (e : GoError) × ((load_or_generate env t).0 ≡ err e)
  unfolding load_or_generate generate
  load_or_generate_stuck s t got empty exists =
      let first = got t in
      elim (Result-cases (env.random (got_secret ∷ t))) [
        | inr (e, f) ↦
            (errorf "generating gateway signing key: " e "", ground (arith, eq_iff (key_of s) ""))
        | inl (key, f) ↦
            let (e, g) = create_key_fails s key (drew_key ∷ got_secret ∷ t) got empty exists in
            (e, ground (arith, eq_iff (key_of s) ""))
      ]
