-- ===== src/Gateway/Token.antt =====
-- internal/gateway/token.go: the gateway's signed cookie values. Bytes are texts.
use Prim.Native.Char.{Char, code}
use Prim.Native.String
use ai_cloud_operator.Base.{
  ◌^◌, ◌-◌, String, Option, none, some, Bool, not, ◌||◌, ◌==◌, eqb, GoError, leaf, errorf,
  ErrorKind, Result, ok, err, if◌then◌else◌,
}
use ai_cloud_operator.Base.Int.{ℤ, pos, ltb_ℤ, ◌+ℤ◌, ◌*ℤ◌, add64}

pub record Payload : Type 0 where
  pub namespace : String
  pub name : String
  pub user_id : String
  -- Unix seconds, an int64.
  pub exp : ℤ

-- base64.RawURLEncoding, HMAC-SHA256 by key and text, and the JSON of a Payload.
pub record Crypto : Type 0 where
  pub encode : String → String
  pub decode : String → Result String
  pub hmac : String → String → String
  pub marshal : Payload → Result String
  pub unmarshal : String → Result Payload

abbrev pub malformed_token : GoError
malformed_token = leaf ErrorKind.malformed_token "gateway: malformed token"

abbrev pub invalid_signature : GoError
invalid_signature = leaf ErrorKind.invalid_signature "gateway: invalid signature"

abbrev pub scope_mismatch : GoError
scope_mismatch = leaf ErrorKind.scope_mismatch "gateway: token not valid for this workload"

abbrev pub expired : GoError
expired = leaf ErrorKind.expired "gateway: token expired"

-- Seconds.
abbrev pub clock_skew : ℤ
clock_skew = pos 30

abbrev pub add_char : Char → Option (String × String) → Option (String × String)
add_char c none = none
add_char c (some (before, after)) = some (String.◌∷◌ c before, after)

-- strings.Cut at the first dot.
unfoldable pub cut_dot : String → Option (String × String)
cut_dot String.[] = none
cut_dot (String.◌∷◌ c s) =
    let rest = cut_dot s in if eqb (code c) b'.' then some ("", s) else add_char c rest

-- The seconds that Go's time counts before Unix time begins.
abbrev pub unix_to_internal : ℤ
unix_to_internal = pos 62135596800

-- Adding a positive number of seconds to a Time: its int64 stops at the greatest one.
unfoldable pub add_seconds : ℤ → ℤ → ℤ
add_seconds ext d = let sum = add64 ext d in if ltb_ℤ ext sum then sum else pos (2 ^ 63 - 1)

-- The time `now` is in Unix nanoseconds. time.Unix adds on int64, which wraps around.
unfoldable pub is_expired : ℤ → Payload → Bool
is_expired now p =
    ltb_ℤ (add_seconds (add64 p.exp unix_to_internal) clock_skew *ℤ pos 1000000000)
      (now +ℤ unix_to_internal *ℤ pos 1000000000)

module _ (crypto : Crypto) where
  abbrev pub joined : String → String → String
  joined part sig = String.◌++◌ part (String.◌++◌ "." sig)

  unfoldable pub sign : String → Payload → Result String
  sign secret p = elim (crypto.marshal p) [
    | err e ↦ err (errorf "marshaling payload: " e "")
    | ok raw ↦
        let part = crypto.encode raw in ok (joined part (crypto.encode (crypto.hmac secret part)))
  ]

  -- The claims, once the signature holds.
  unfoldable pub check_claims : String → String → ℤ → Payload → Result Payload
  check_claims namespace name now p =
      if not (p.namespace == namespace) || not (p.name == name)
      then err scope_mismatch
      else if is_expired now p
      then err expired
      else ok p

  unfoldable pub open_payload : String → String → ℤ → String → Result Payload
  open_payload namespace name now part = elim (crypto.decode part) [
    | err _ ↦ err malformed_token
    | ok raw ↦ elim (crypto.unmarshal raw) [
      | err _ ↦ err malformed_token
      | ok p ↦ check_claims namespace name now p
    ]
  ]

  unfoldable pub verify : String → String → String → ℤ → String → Result Payload
  verify secret namespace name now token = elim (cut_dot token) [
    | none ↦ err malformed_token
    | some (part, sig64) ↦ elim (crypto.decode sig64) [
      | err _ ↦ err malformed_token
      | ok sig ↦
          if sig == crypto.hmac secret part
          then open_payload namespace name now part
          else err invalid_signature
    ]
  ]
