-- ===== src/Tests/Tokens.antt =====
-- The gateway's cookies with a small encoding that keeps the laws of the real one.
use Prim.Native.Char.{Char, code}
use text.Mathlib.TextEquality.{Char-path}
use ai_cloud_operator.Base.{
  zero, suc, ◌^◌, ◌-◌, String, Bool, true, false, ◌&&◌, ◌==◌, eqb, eq_iff, leaf, ErrorKind, Result,
  ok, err, Bool-cases, ◌≡◌, refl, ap, inl, inr, arith, if◌then◌else◌,
}
use ai_cloud_operator.Base.Int.{ℤ, pos, negsuc, ◌+ℤ◌, ◌*ℤ◌, add64}
use ai_cloud_operator.Gateway.Token.{
  Payload, Crypto, sign, verify, cut_dot, open_payload, check_claims, scope_mismatch, is_expired,
  add_seconds,
}
use ai_cloud_operator.Gateway.Signing.{HasNoDot, CryptoLaws, verify-sign}

abbrev mark : Char
mark = "!"

abbrev stand_in : Char
stand_in = "d"

abbrev dot : Char
dot = "."

-- A dot becomes "dd", and any other character is preceded by "!".
unfoldable pub escape : String → String
escape String.[] = String.[]
escape (String.◌∷◌ c s) =
    let rest = escape s in
    if eqb (code c) b'.'
    then String.◌∷◌ stand_in (String.◌∷◌ stand_in rest)
    else String.◌∷◌ mark (String.◌∷◌ c rest)

pub unescape : String → String
unescape String.[] = String.[]
unescape (String.◌∷◌ m String.[]) = String.[]
unescape (String.◌∷◌ m (String.◌∷◌ c s)) =
    let rest = unescape s in if eqb (code m) b'd' then String.◌∷◌ dot rest else String.◌∷◌ c rest

escape-HasNoDot : (s : String) → HasNoDot (escape s)
unfolding escape
escape-HasNoDot String.[] = tt
escape-HasNoDot (String.◌∷◌ c s) = elim (Bool-cases (eqb (code c) b'.')) [
  | inl hit ↦ rw (escape, hit) (refl, (refl, escape-HasNoDot s))
  | inr miss ↦ rw (escape, miss) (refl, (miss, escape-HasNoDot s))
]

unescape-escape : (s : String) → unescape (escape s) ≡ s
unfolding escape unescape
unescape-escape String.[] = refl
unescape-escape (String.◌∷◌ c s) =
    let tail = unescape-escape s in
    elim (Bool-cases (eqb (code c) b'.')) [
      | inl hit ↦
          let same : c ≡ dot = Char-path c dot (ground arith) in
          rw (escape, hit, unescape, tail, same) refl
      | inr miss ↦ rw (escape, miss, unescape, tail) refl
    ]

abbrev claims : Payload
claims = record { namespace = "tenant"; name = "web"; user_id = "u1"; exp = pos 0 }

unfoldable pub is_zero : ℤ → Bool
is_zero (pos zero) = true
is_zero _ = false

is_zero-pos : (n : ℤ) → is_zero n ≡ true → n ≡ pos 0
unfolding is_zero
is_zero-pos (pos zero) e = refl
is_zero-pos (pos (suc n)) e = ground arith
is_zero-pos (negsuc n) e = ground arith

-- The JSON of claims that are those but for the user is the user.
unfoldable pub write : Payload → Result String
write p =
    if (p.namespace == "tenant") && (p.name == "web") && is_zero p.exp
    then ok p.user_id
    else err (leaf ErrorKind.plain "other claims")

abbrev read : String → Result Payload
read raw = ok (record claims { user_id = raw })

abbrev pub crypto : Crypto
crypto = record {
  encode = escape;
  decode = λ s. ok (unescape s);
  hmac = λ key s. key;
  marshal = write;
  unmarshal = read;
}

read-write : (p : Payload) (raw : String) → write p ≡ ok raw → read raw ≡ ok p
unfolding write
read-write p raw e =
    let n : p.namespace ≡ "tenant" = ground (arith, eq_iff p.namespace "tenant") in
    let m : p.name ≡ "web" = ground (arith, eq_iff p.name "web") in
    let z : p.exp ≡ pos 0 = is_zero-pos p.exp (ground arith) in
    let u : p.user_id ≡ raw = ground arith in rw (← n, ← m, ← z, ← u) refl

pub crypto-CryptoLaws : CryptoLaws crypto
crypto-CryptoLaws = record {
  no_dot = escape-HasNoDot;
  decode-encode = λ s. ap ok (unescape-escape s);
  unmarshal-marshal = read-write;
}

abbrev pub cookie : String
cookie = "!u!1.!k!e!y"

claims-sign : sign crypto "key" claims ≡ ok cookie
unfolding sign write is_zero escape
claims-sign = refl

pub cookie-verify : verify crypto "key" "tenant" "web" (pos 7) cookie ≡ ok claims
unfolding verify cut_dot open_payload check_claims is_expired add_seconds add64 unescape ◌*ℤ◌ ◌+ℤ◌
cookie-verify = refl

-- Claims for the Workload "web" are not accepted for another one.
verify-sign_example : verify crypto "key" "tenant" "db" (pos 7) cookie ≡ err scope_mismatch
verify-sign_example =
    verify-sign crypto crypto-CryptoLaws "key" "tenant" "db" (pos 7) claims cookie (omega arith)
      claims-sign

-- Where time.Unix wraps around, the claims are over at once.
far : is_expired (pos 7) (record claims { exp = pos (2 ^ 63 - 1) }) ≡ true
unfolding is_expired add_seconds add64 ◌*ℤ◌ ◌+ℤ◌
far = refl
