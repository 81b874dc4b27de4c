-- ===== src/Gateway/KeyStore.antt =====
-- internal/gateway/keystore.go: the key that signs the gateway's cookies, kept in one Secret.
use ai_cloud_operator.Base.{
  String, List, [], ◌∷◌, Option, none, some, ◌==◌, get_text, GoError, leaf, errorf, ErrorKind,
  is_kind, Result, ok, err, if◌then◌else◌,
}
use ai_cloud_operator.Base.Effects.{M, return, call, ◌>>=◌}
use ai_cloud_operator.TokenStore.{Secret}

pub data Event : Type 0 where
  got_secret drew_key : Event
  created_secret : Secret → Event

-- `random` is rand.Read of 32 bytes.
pub record Env : Type 0 where
  pub get_secret : List Event → Result Secret
  pub random : List Event → Result String
  pub create_secret : List Event → Secret → Option GoError

abbrev pub key_of : Secret → String
key_of s = get_text "signingKey" s.values

unfoldable pub key_secret : String → Secret
key_secret key = record {
  labels = ("app.kubernetes.io/managed-by", "ai-cloud-operator") ∷ [];
  kind = "Opaque";
  values = ("signingKey", key) ∷ [];
}

abbrev pub no_key_data : GoError
no_key_data = leaf ErrorKind.plain "gateway key secret exists but has no signingKey data"

-- Where a run stands: before each of its calls, or at its end.
pub data Stage : Type 0 where
  start drawing : Stage
  creating : String → Stage
  rereading : Stage
  done : Result String → Stage

module _ (env : Env) where
  -- The Secret was created by another replica in the meantime.
  unfoldable pub reread : M Event (Result String)
  reread = do
    got ← call got_secret env.get_secret
    elim got [
      | err e ↦ return (err (errorf "getting gateway key secret after lost create race: " e ""))
      | ok s ↦ if key_of s == "" then return (err no_key_data) else return (ok (key_of s))
    ]

  unfoldable pub create_key : String → M Event (Result String)
  create_key key = do
    failed ← call (created_secret (key_secret key)) (λ t. env.create_secret t (key_secret key))
    elim failed [
      | none ↦ return (ok key)
      | some e ↦
          if is_kind ErrorKind.already_exists e
          then reread
          else return (err (errorf "creating gateway key secret: " e ""))
    ]

  unfoldable pub generate : M Event (Result String)
  generate = do
    drawn ← call drew_key env.random
    elim drawn [
      | err e ↦ return (err (errorf "generating gateway signing key: " e ""))
      | ok key ↦ create_key key
    ]

  unfoldable pub load_or_generate : M Event (Result String)
  load_or_generate = do
    got ← call got_secret env.get_secret
    elim got [
      | ok s ↦ if key_of s == "" then generate else return (ok (key_of s))
      | err e ↦
          if is_kind ErrorKind.not_found e
          then generate
          else return (err (errorf "getting gateway key secret: " e ""))
    ]

  -- The next call of a run, and the stage after it.
  unfoldable pub advance : Stage → M Event Stage
  advance start = do
    got ← call got_secret env.get_secret
    elim got [
      | ok s ↦ return (if key_of s == "" then drawing else done (ok (key_of s)))
      | err e ↦ return (
          if is_kind ErrorKind.not_found e
          then drawing
          else done (err (errorf "getting gateway key secret: " e "")))
    ]
  advance drawing = do
    drawn ← call drew_key env.random
    elim drawn [
      | err e ↦ return (done (err (errorf "generating gateway signing key: " e "")))
      | ok key ↦ return (creating key)
    ]
  advance (creating key) = do
    failed ← call (created_secret (key_secret key)) (λ t. env.create_secret t (key_secret key))
    elim failed [
      | none ↦ return (done (ok key))
      | some e ↦ return (
          if is_kind ErrorKind.already_exists e
          then rereading
          else done (err (errorf "creating gateway key secret: " e "")))
    ]
  advance rereading = do
    got ← call got_secret env.get_secret
    elim got [
      | err e ↦
          return (done (err (errorf "getting gateway key secret after lost create race: " e "")))
      | ok s ↦ return (if key_of s == "" then done (err no_key_data) else done (ok (key_of s)))
    ]
  advance (done r) = return (done r)
