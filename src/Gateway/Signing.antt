-- ===== src/Gateway/Signing.antt =====
-- internal/gateway/token.go: `Verify` against `Sign`.
use Prim.Native.Char.{Char, code}
use Prim.Native.String
use text.Mathlib.TextLemmas.{nil-append, cons-append}
use ai_cloud_operator.Base.{
  String, some, false, ◌&&◌, ◌==◌, eqb, eq_refl, ok, err, Result-cases, ◌≡◌, refl, ap, ◌∙◌, inl,
  inr, arith, if◌then◌else◌,
}
use ai_cloud_operator.Base.Int.{ℤ, pos, ltb_ℤ, ◌+ℤ◌, ◌*ℤ◌}
use ai_cloud_operator.Gateway.Token.{
  Payload, Crypto, scope_mismatch, expired, cut_dot, is_expired, joined, sign, check_claims,
  open_payload, verify,
}
use ai_cloud_operator.Gateway.Expiry.{IsHeld, is_expired-held}

-- No character of the text is a dot.
abbrev pub HasNoDot : String → Type 0
HasNoDot String.[] = Unit
HasNoDot (String.◌∷◌ c s) = (eqb (code c) b'.' ≡ false) × HasNoDot s

-- The documented behaviour of the libraries: the alphabet of RawURLEncoding has no dot, and both
-- encodings decode to what was encoded.
pub record CryptoLaws (crypto : Crypto) : Type 0 where
  pub no_dot : (s : String) → HasNoDot (crypto.encode s)
  pub decode-encode : (s : String) → crypto.decode (crypto.encode s) ≡ ok s
  pub unmarshal-marshal :
      (p : Payload) (raw : String) → crypto.marshal p ≡ ok raw → crypto.unmarshal raw ≡ ok p

abbrev dot : Char
dot = "."

dot-append : (b : String) → String.◌++◌ "." b ≡ String.◌∷◌ dot b
dot-append b = cons-append dot "" b ∙ ap (String.◌∷◌ dot) (nil-append b)

cut_dot-append :
    (a b : String) → HasNoDot a → cut_dot (String.◌++◌ a (String.◌++◌ "." b)) ≡ some (a, b)
unfolding cut_dot
cut_dot-append String.[] b h = rw (nil-append (String.◌++◌ "." b), dot-append b) refl
cut_dot-append (String.◌∷◌ c s) b (h, rest) =
    let tail = cut_dot-append s b rest in rw (cons-append c s (String.◌++◌ "." b)) (ground arith)

module _ (crypto : Crypto) (laws : CryptoLaws crypto) (secret namespace name : String)
    (now : ℤ) where
  verify-joined :
      (raw : String) (p : Payload)
      → crypto.unmarshal raw ≡ ok p
      → verify crypto secret namespace name now (
          joined crypto
            (crypto.encode raw)
            (crypto.encode (crypto.hmac secret (crypto.encode raw))))
        ≡ check_claims crypto namespace name now p
  unfolding verify open_payload
  verify-joined raw p f =
      let part = crypto.encode raw in
      let mac = crypto.hmac secret part in
      let cut = cut_dot-append part (crypto.encode mac) (laws.no_dot raw) in
      let first = laws.decode-encode mac in
      let second = laws.decode-encode raw in ground (arith, eq_refl mac)

  -- The same with the test of the time as the code makes it.
  pub verify-signed :
      (p : Payload) (token : String)
      → sign crypto secret p ≡ ok token
      → verify crypto secret namespace name now token ≡ (
          if (p.namespace == namespace) && (p.name == name)
          then (if is_expired now p then err expired else ok p)
          else err scope_mismatch)
  unfolding sign check_claims
  verify-signed p token signed = elim (Result-cases (crypto.marshal p)) [
    | inr (e, f) ↦ absurd (ground arith)
    | inl (raw, f) ↦
        let part = crypto.encode raw in
        let same : joined crypto part (crypto.encode (crypto.hmac secret part)) ≡ token =
          ground arith in
        rw (← same, verify-joined raw p (laws.unmarshal-marshal p raw f)) (ground arith)
  ]

  -- What `Verify` says of a value that `Sign` made with the same secret, where Go's time holds the
  -- time of the claims and thirty seconds more: the claims again, where they are for this workload
  -- and no more than thirty seconds have passed since their time; else the scope is blamed before
  -- the time. The encodings must decode to what was encoded, and base64 must have no dot.
  pub verify-sign :
      (p : Payload) (token : String)
      → IsHeld p.exp
      → sign crypto secret p ≡ ok token
      → verify crypto secret namespace name now token ≡ (
          if (p.namespace == namespace) && (p.name == name)
          then (if ltb_ℤ ((p.exp +ℤ pos 30) *ℤ pos 1000000000) now then err expired else ok p)
          else err scope_mismatch)
  verify-sign p token held signed = rw (← is_expired-held now p held) (verify-signed p token signed)

-- What an accepted value consists of.
pub record Accepted (crypto : Crypto) (secret namespace name : String) (now : ℤ) (token : String)
    (p : Payload) : Type 0 where
  pub part : String
  pub sig64 : String
  pub raw : String
  pub shape : token ≡ joined crypto part sig64
  pub signature : crypto.decode sig64 ≡ ok (crypto.hmac secret part)
  pub payload : crypto.decode part ≡ ok raw
  pub claims : crypto.unmarshal raw ≡ ok p
  pub in_namespace : p.namespace ≡ namespace
  pub in_name : p.name ≡ name
  pub in_time : is_expired now p ≡ false
