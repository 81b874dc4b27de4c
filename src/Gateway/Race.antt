-- ===== src/Gateway/Race.antt =====
-- internal/gateway/keystore.go: replicas that start at once and race to create the Secret.
use ai_cloud_operator.Base.{
  ℕ, zero, suc, ◌<◌, String, List, [], ◌∷◌, Option, none, some, leaf, ErrorKind, ok, err, ◌≡◌, ◌≢◌,
  arith,
}
use ai_cloud_operator.Gateway.KeyStore.{
  Event, created_secret, Env, key_of, key_secret, reread, create_key, generate, load_or_generate,
  Stage, start, drawing, creating, rereading, done, advance,
}

-- Four stages of a run are the whole run.
pub load_or_generate-advance :
    (env : Env) (t : List Event)
    → let a = advance env start t in
      let b = advance env a.0 a.1 in
      let c = advance env b.0 b.1 in
      let d = advance env c.0 c.1 in
      d ≡ (done (load_or_generate env t).0, (load_or_generate env t).1)
unfolding load_or_generate generate create_key reread advance
load_or_generate-advance env t = ground arith

-- The API server's store, as far as the one Secret goes: the key in it. It has no Secret without
-- a key.
abbrev pub Cell : Type 0
Cell = Option String

-- What the server and the source of random bytes answer at one moment.
abbrev pub served : Cell → String → Env
served none key = record {
  get_secret = λ t. err (leaf ErrorKind.not_found "not found");
  random = λ t. ok key;
  create_secret = λ t x. none;
}
served (some stored) key = record {
  get_secret = λ t. ok (key_secret stored);
  random = λ t. ok key;
  create_secret = λ t x. some (leaf ErrorKind.already_exists "already exists");
}

-- The store after one call.
unfoldable pub stores : Cell → List Event → Cell
stores none (created_secret x ∷ []) = some (key_of x)
stores c t = c

-- One call of one replica, with the key that it would draw.
abbrev pub moved : Cell → String → Stage → Stage
moved c key p = (advance (served c key) p []).0

abbrev pub cell_after : Cell → String → Stage → Cell
cell_after c key p = stores c (advance (served c key) p []).1

abbrev pub remaining : Stage → ℕ
remaining start = 4
remaining drawing = 3
remaining (creating key) = 2
remaining rereading = 1
remaining (done r) = 0

-- One replica of the list makes its next call.
pub data Step : Cell × List Stage → Cell × List Stage → Type 0 where
  here :
      {c : Cell} {p : Stage} {ps : List Stage} (key : String)
      → key ≢ ""
      → 0 < remaining p
      → Step (c, p ∷ ps) (cell_after c key p, moved c key p ∷ ps)
  there :
      {c c' : Cell} {p : Stage} {ps ps' : List Stage}
      → Step (c, ps) (c', ps')
      → Step (c, p ∷ ps) (c', p ∷ ps')

-- A run of that many calls, in any order of the replicas.
pub data Run : ℕ → Cell × List Stage → Cell × List Stage → Type 0 where
  stop : {w : Cell × List Stage} → Run 0 w w
  then : {n : ℕ} {u v w : Cell × List Stage} → Step u v → Run n v w → Run (suc n) u w

abbrev pub IsGood : Cell → Stage → Type 0
IsGood c start = Unit
IsGood c drawing = Unit
IsGood c (creating key) = key ≢ ""
IsGood c rereading = c ≢ none
IsGood c (done r) = (key : String) × (r ≡ ok key) × (c ≡ some key)

abbrev pub IsFull : Cell → Type 0
IsFull c = (key : String) → c ≡ some key → key ≢ ""

abbrev pub starting : ℕ → List Stage
starting zero = []
starting (suc n) = start ∷ starting n
