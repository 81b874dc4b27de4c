-- ===== src/TokenStore/Saving.antt =====
-- internal/tokenstore/tokenstore.go: what `Save` writes, and that `Load` reads it back.
use ai_cloud_operator.Base.{
  String, List, ◌∷◌, none, false, ◌==◌, ◌≡◌, refl, inl, inr, ◌⊎◌, lookup, lookup-insert, get_text,
  get_text-insert, ErrorKind, is_kind, ok, Bool-cases, Option-cases, Result-cases, arith,
}
use ai_cloud_operator.Operator.World.{Tokens}
use ai_cloud_operator.TokenStore.{
  Secret, Event, Env, got_secret, created_secret, updated_secret, read_tokens, usable, write_tokens,
  new_secret, load, save,
}

read-write_tokens : (k : Tokens) (m : List (String × String)) → read_tokens (write_tokens k m) ≡ k
unfolding read_tokens write_tokens
read-write_tokens k m =
    let heartbeat : get_text "heartbeatToken" (write_tokens k m) ≡ k.heartbeat_token =
      simp (get_text-insert) in
    let deploy : get_text "deployToken" (write_tokens k m) ≡ k.deploy_token =
      simp (get_text-insert) in
    let catalog : get_text "catalogHash" (write_tokens k m) ≡ k.catalog_hash =
      simp (get_text-insert) in
    let version : get_text "operatorVersion" (write_tokens k m) ≡ k.operator_version =
      simp (get_text-insert) in
    let tags : get_text "tagsFingerprint" (write_tokens k m) ≡ k.tags_fingerprint =
      simp (get_text-insert) in
    λ i. record {
      heartbeat_token = heartbeat i;
      deploy_token = deploy i;
      catalog_hash = catalog i;
      operator_version = version i;
      tags_fingerprint = tags i;
    }

read-new_secret : (k : Tokens) → read_tokens (new_secret k).values ≡ k
unfolding read_tokens new_secret get_text lookup
read-new_secret k = refl

-- The key is none of the five that hold the tokens.
pub record IsForeign (key : String) : Type 0 where
  pub heartbeat : ("heartbeatToken" == key) ≡ false
  pub deploy : ("deployToken" == key) ≡ false
  pub catalog : ("catalogHash" == key) ≡ false
  pub version : ("operatorVersion" == key) ≡ false
  pub tags : ("tagsFingerprint" == key) ≡ false

lookup-write_tokens :
    (k : Tokens) (m : List (String × String)) (key : String)
    → IsForeign key
    → lookup key (write_tokens k m) ≡ lookup key m
unfolding write_tokens
lookup-write_tokens k m key f =
    simp (lookup-insert, f.heartbeat, f.deploy, f.catalog, f.version, f.tags)

module _ (env : Env) where
  -- The last call has written this Secret.
  abbrev pub IsWritten : Secret → List Event → List Event → Type 0
  IsWritten secret t t' =
      ((t' ≡ created_secret secret ∷ got_secret ∷ t)
        × (env.create_secret (got_secret ∷ t) secret ≡ none))
      ⊎ ((t' ≡ updated_secret secret ∷ got_secret ∷ t)
          × (env.update_secret (got_secret ∷ t) secret ≡ none))

  -- What a successful `Save` has done.
  pub record Saved (k : Tokens) (t t' : List Event) : Type 0 where
    pub secret : Secret
    pub written : IsWritten secret t t'
    pub read_back :
        (later : List Event)
        → env.get_secret later ≡ ok secret
        → load env later ≡ (ok (usable k), got_secret ∷ later)
    pub kept :
        (old : Secret) (key : String)
        → env.get_secret t ≡ ok old
        → IsForeign key
        → lookup key secret.values ≡ lookup key old.values

  load_lem :
      (k : Tokens) (secret : Secret) (later : List Event)
      → read_tokens secret.values ≡ k
      → env.get_secret later ≡ ok secret
      → load env later ≡ (ok (usable k), got_secret ∷ later)
  unfolding load
  load_lem k secret later e f = ground arith

  -- Where `Save` succeeds, its last call has created or updated the Secret; a `Load` that finds
  -- that Secret returns the saved tokens, or none where one of the two bearer tokens is empty; and
  -- entries of the old Secret under other keys are kept.
  pub save-Saved :
      (k : Tokens) (t : List Event) → (save env k t).0 ≡ none → Saved k t (save env k t).1
  unfolding save
  save-Saved k t success = elim (Result-cases (env.get_secret t)) [
    | inl (old, f) ↦
        let changed = record old { values = write_tokens k old.values } in
        record {
          secret = changed;
          written = elim (Option-cases (env.update_secret (got_secret ∷ t) changed)) [
            | inl g ↦ inr (ground arith, g)
            | inr (e, g) ↦ absurd (ground arith)
          ];
          read_back = λ later h. load_lem k changed later (read-write_tokens k old.values) h;
          kept = λ other key h foreign.
              let same : old ≡ other = ground arith in
              rw same (lookup-write_tokens k other.values key foreign);
        }
    | inr (e, f) ↦ elim (Bool-cases (is_kind ErrorKind.not_found e)) [
      | inr g ↦ absurd (ground arith)
      | inl g ↦ record {
        secret = new_secret k;
        written = elim (Option-cases (env.create_secret (got_secret ∷ t) (new_secret k))) [
          | inl h ↦ inl (ground arith, h)
          | inr (e', h) ↦ absurd (ground arith)
        ];
        read_back = λ later h. load_lem k (new_secret k) later (read-new_secret k) h;
        kept = λ other key h foreign. absurd (ground arith);
      }
    ]
  ]
