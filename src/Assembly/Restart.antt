-- ===== src/Assembly/Restart.antt =====
-- internal/convexclient, internal/tokenstore: what a restart finds of an earlier registration.
use ai_cloud_operator.Base.{
  List, ◌∷◌, Option, none, some, true, eq_iff, eq_refl, GoError, ok, ◌≡◌, ◌≢◌, ◌∙◌, ap, arith,
}
use ai_cloud_operator.TokenStore
use ai_cloud_operator.TokenStore.Saving.{IsWritten, save-Saved}
use ai_cloud_operator.Operator.World.{
  Env, Event, Tokens, ClaimableWorkload, PendingOperation, registered, loaded_tokens,
  sent_heartbeat,
}
use ai_cloud_operator.Operator.Registration.{
  Session, is_fresh, stamped, register, reuse_or_register, load_or_register,
}
use ai_cloud_operator.Operator.Sessions.{
  RegisterRun, refused, unsaved, renewed, register-RegisterRun,
}
use ai_cloud_operator.Assembly.Parts.{Parts, store_calls, assembled}

usable_lem :
    (k : Tokens) → k.heartbeat_token ≢ "" → k.deploy_token ≢ "" → TokenStore.usable k ≡ some k
unfolding TokenStore.usable
usable_lem k a b = ground (arith, eq_iff k.heartbeat_token "", eq_iff k.deploy_token "")

module _ (env : Env) where
  is_fresh-stamped : (k : Tokens) → is_fresh env (stamped env k) ≡ true
  unfolding is_fresh
  is_fresh-stamped k =
      ground (arith, eq_refl env.catalog_hash, eq_refl env.version, eq_refl env.tags_fingerprint)

  load_or_register-reused :
      (s : Session) (t : List Event) (k : Tokens)
      (answer : List ClaimableWorkload × List PendingOperation)
      → env.load_tokens t ≡ ok (some k)
      → env.heartbeat (loaded_tokens ∷ t) k.heartbeat_token none none ≡ ok answer
      → is_fresh env k ≡ true
      → load_or_register env s t ≡ (
        (record s { tokens = k }, none),
        sent_heartbeat k.heartbeat_token none none ∷ loaded_tokens ∷ t,
      )
  unfolding load_or_register reuse_or_register
  load_or_register-reused s t k answer f g h = ground arith

  -- A registration that has succeeded has saved the tokens that it leaves.
  RegisterRun-saved :
      {s : Session} {t : List Event} {r : (Session × Option GoError) × List Event}
      → RegisterRun env s t r
      → r.0.1 ≡ none
      → (is_fresh env r.0.0.tokens ≡ true)
        × (env.save_tokens (registered s.secret ∷ t) r.0.0.tokens ≡ none)
  RegisterRun-saved (refused e f g) fine = absurd (ground arith)
  RegisterRun-saved (unsaved k e f g h) fine = absurd (ground arith)
  RegisterRun-saved (renewed k f g h) fine = rw h (is_fresh-stamped k, g)

module _ (parts : Parts) (s : Session) (t : List Event) where
  -- The history of the store when the new tokens are saved.
  abbrev pub store_before : List TokenStore.Event
  store_before = store_calls parts (registered s.secret ∷ t)

  abbrev pub new_tokens : Tokens
  new_tokens = (register (assembled parts) s t).0.0.tokens

  -- At the later time the API server still has the Secret that this registration wrote.
  abbrev pub IsKept : List Event → Type 0
  IsKept later =
      (secret : TokenStore.Secret)
      → IsWritten parts.store secret store_before
          (TokenStore.save parts.store new_tokens store_before).1
      → parts.store.get_secret (store_calls parts later) ≡ ok secret

  -- After a registration that has succeeded, with neither of its two tokens empty, a restart with
  -- the Secret still there, and a heartbeat that Convex takes, goes on with the very tokens of that
  -- registration and registers nothing.
  pub load_or_register-restart :
      (restarted : Session) (later : List Event)
      (answer : List ClaimableWorkload × List PendingOperation)
      → (register (assembled parts) s t).0.1 ≡ none
      → new_tokens.heartbeat_token ≢ ""
      → new_tokens.deploy_token ≢ ""
      → IsKept later
      → (assembled parts).heartbeat (loaded_tokens ∷ later) new_tokens.heartbeat_token none none
        ≡ ok answer
      → load_or_register (assembled parts) restarted later ≡ (
        (record restarted { tokens = new_tokens }, none),
        sent_heartbeat new_tokens.heartbeat_token none none ∷ loaded_tokens ∷ later,
      )
  load_or_register-restart restarted later answer fine filled deploy kept taken =
      let env = assembled parts in
      let (fresh, saved) = RegisterRun-saved env (register-RegisterRun env s t) fine in
      let stored = save-Saved parts.store new_tokens store_before saved in
      let loaded = stored.read_back (store_calls parts later) (kept stored.secret stored.written) in
      load_or_register-reused env restarted later new_tokens answer
        (ap (λ r. r.0) loaded ∙ ap (λ k. ok k) (usable_lem new_tokens filled deploy)) taken fresh
