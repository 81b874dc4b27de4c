-- ===== src/Gateway/Expiry.antt =====
-- internal/gateway/token.go: when the time of a cookie is over.
use ai_cloud_operator.Base.{◌+◌, ◌^◌, ◌<◌, ◌≡◌, arith, ℕ}
use ai_cloud_operator.Base.Int.{ℤ, pos, negsuc, ltb_ℤ, wrap64, add64, ◌+ℤ◌, ◌*ℤ◌}
use ai_cloud_operator.Gateway.Token.{Payload, clock_skew, unix_to_internal, add_seconds, is_expired}

-- Go's Time holds this Unix time, and thirty seconds more.
abbrev pub IsHeld : ℤ → Type 0
IsHeld (pos n) = n + 62135596830 < 2 ^ 63
IsHeld (negsuc n) = n < 2 ^ 63

internal_pos :
    (n : ℕ)
    → n + 62135596830 < 2 ^ 63
    → add_seconds (add64 (pos n) unix_to_internal) clock_skew ≡ pos n +ℤ pos 62135596830
unfolding add_seconds add64 wrap64 ◌+ℤ◌
internal_pos n h = ground arith

internal_negsuc :
    (n : ℕ)
    → n < 2 ^ 63
    → add_seconds (add64 (negsuc n) unix_to_internal) clock_skew ≡ negsuc n +ℤ pos 62135596830
unfolding add_seconds add64 wrap64 ◌+ℤ◌
internal_negsuc n h = ground arith

internal_lem :
    (e : ℤ) → IsHeld e → add_seconds (add64 e unix_to_internal) clock_skew ≡ e +ℤ pos 62135596830
internal_lem (pos n) h = internal_pos n h
internal_lem (negsuc n) h = internal_negsuc n h

-- Both sides of the test, from the same beginning.
shifted :
    (now : ℤ) (e : ℤ)
    → ltb_ℤ ((e +ℤ pos 62135596830) *ℤ pos 1000000000) (now +ℤ unix_to_internal *ℤ pos 1000000000)
      ≡ ltb_ℤ ((e +ℤ pos 30) *ℤ pos 1000000000) now
unfolding ◌+ℤ◌ ◌*ℤ◌
shifted (pos m) (pos n) = ground arith
shifted (pos m) (negsuc n) = ground arith
shifted (negsuc m) (pos n) = ground arith
shifted (negsuc m) (negsuc n) = ground arith

pub is_expired-held :
    (now : ℤ) (p : Payload)
    → IsHeld p.exp
    → is_expired now p ≡ ltb_ℤ ((p.exp +ℤ pos 30) *ℤ pos 1000000000) now
unfolding is_expired
is_expired-held now p h = rw (internal_lem p.exp h) (shifted now p.exp)
