-- ===== src/TokenStore.antt =====
-- internal/tokenstore/tokenstore.go: the operator's tokens in one Secret. A value's bytes are a
-- text, and a nil data map reads and writes as an empty one.
use ai_cloud_operator.Base.{
  String, List, [], ◌∷◌, Option, none, some, Bool, true, false, ◌||◌, ◌==◌, insert, get_text,
  GoError, errorf, ErrorKind, is_kind, Result, ok, err, if◌then◌else◌,
}
use ai_cloud_operator.Base.Effects.{M, return, call, ◌>>=◌}
use ai_cloud_operator.Operator.World.{Tokens}
pub mod Saving

pub record Secret : Type 0 where
  pub labels : List (String × String)
  pub kind : String
  pub values : List (String × String)

pub data Event : Type 0 where
  got_secret : Event
  created_secret updated_secret : Secret → Event

-- The API server's answers about the one Secret of the store.
pub record Env : Type 0 where
  pub get_secret : List Event → Result Secret
  pub create_secret : List Event → Secret → Option GoError
  pub update_secret : List Event → Secret → Option GoError

unfoldable pub read_tokens : List (String × String) → Tokens
read_tokens m = record {
  heartbeat_token = get_text "heartbeatToken" m;
  deploy_token = get_text "deployToken" m;
  catalog_hash = get_text "catalogHash" m;
  operator_version = get_text "operatorVersion" m;
  tags_fingerprint = get_text "tagsFingerprint" m;
}

-- Tokens without both bearer tokens count as none.
unfoldable pub usable : Tokens → Option Tokens
usable k = if k.heartbeat_token == "" || k.deploy_token == "" then none else some k

unfoldable pub write_tokens : Tokens → List (String × String) → List (String × String)
write_tokens k m = insert "tagsFingerprint" k.tags_fingerprint (
    insert "operatorVersion" k.operator_version (
      insert "catalogHash" k.catalog_hash
        (insert "deployToken" k.deploy_token (insert "heartbeatToken" k.heartbeat_token m))))

unfoldable pub new_secret : Tokens → Secret
new_secret k = record {
  labels = ("app.kubernetes.io/managed-by", "ai-cloud-operator") ∷ [];
  kind = "Opaque";
  values =
      ("heartbeatToken", k.heartbeat_token)
      ∷ ("deployToken", k.deploy_token)
      ∷ ("catalogHash", k.catalog_hash)
      ∷ ("operatorVersion", k.operator_version)
      ∷ ("tagsFingerprint", k.tags_fingerprint)
      ∷ [];
}

module _ (env : Env) where
  unfoldable pub load : M Event (Result (Option Tokens))
  load = do
    got ← call got_secret env.get_secret
    elim got [
      | ok secret ↦ return (ok (usable (read_tokens secret.values)))
      | err e ↦ return (
          if is_kind ErrorKind.not_found e
          then ok none
          else err (errorf "getting token secret: " e ""))
    ]

  abbrev wrapped : String → Option GoError → Option GoError
  wrapped what none = none
  wrapped what (some e) = some (errorf what e "")

  unfoldable pub save : Tokens → M Event (Option GoError)
  save k = do
    got ← call got_secret env.get_secret
    elim got [
      | ok secret ↦ do
        let changed = record secret { values = write_tokens k secret.values }
        failed ← call (updated_secret changed) (λ t. env.update_secret t changed)
        return (wrapped "updating token secret: " failed)
      | err e ↦
          if is_kind ErrorKind.not_found e
          then (do
            failed ← call (created_secret (new_secret k)) (λ t. env.create_secret t (new_secret k))
            return (wrapped "creating token secret: " failed))
          else return (some (errorf "getting token secret before update: " e ""))
    ]
