-- ===== src/Atom/Words.antt =====
-- Conversions of an integer to the fixed-width types (static_cast in include/pcp-cpp/atom.hpp).
use pcp_pmda_cpp.Base.{ℕ, ◌+◌, ◌-◌, ◌%◌, ◌^◌, ◌<◌, ◌≡◌, arith, ltb, if◌then◌else◌}
use pcp_pmda_cpp.Base.Int.{ℤ, pos, negsuc, ◌≤ℤ◌}

-- static_cast<uintN_t>: the residue modulo 2^N, where `m` is 2^N.
unfoldable pub to_unsigned : ℕ → ℤ → ℕ
to_unsigned m (pos n) = n % m
to_unsigned m (negsuc n) = m - 1 - n % m

-- static_cast<intN_t>: the residue that lies from -2^(N-1) to 2^(N-1) - 1, where `h` is 2^(N-1).
unfoldable pub to_signed : ℕ → ℤ → ℤ
unfolding to_unsigned
to_signed h z = let u = to_unsigned (h + h) z in if ltb u h then pos u else negsuc (h + h - 1 - u)

pub to_unsigned-lt_32 : (z : ℤ) → to_unsigned (2 ^ 32) z < 2 ^ 32
unfolding to_unsigned
to_unsigned-lt_32 (pos n) = omega arith
to_unsigned-lt_32 (negsuc n) = omega arith

pub to_unsigned-lt_64 : (z : ℤ) → to_unsigned (2 ^ 64) z < 2 ^ 64
unfolding to_unsigned
to_unsigned-lt_64 (pos n) = omega arith
to_unsigned-lt_64 (negsuc n) = omega arith

-- Values in range are kept.
pub to_unsigned_id : (m n : ℕ) → n < m → to_unsigned m (pos n) ≡ n
unfolding to_unsigned
to_unsigned_id m n h = grind arith

pub to_signed_id_32 :
    (z : ℤ) → negsuc (2 ^ 31 - 1) ≤ℤ z → z ≤ℤ pos (2 ^ 31 - 1) → to_signed (2 ^ 31) z ≡ z
unfolding to_signed
to_signed_id_32 (pos n) lo hi = ground arith
to_signed_id_32 (negsuc n) lo hi = ground arith

pub to_signed_id_64 :
    (z : ℤ) → negsuc (2 ^ 63 - 1) ≤ℤ z → z ≤ℤ pos (2 ^ 63 - 1) → to_signed (2 ^ 63) z ≡ z
unfolding to_signed
to_signed_id_64 (pos n) lo hi = ground arith
to_signed_id_64 (negsuc n) lo hi = ground arith

pub to_signed_range_32 :
    (z : ℤ)
    → (negsuc (2 ^ 31 - 1) ≤ℤ to_signed (2 ^ 31) z) × (to_signed (2 ^ 31) z ≤ℤ pos (2 ^ 31 - 1))
unfolding to_signed
to_signed_range_32 (pos n) = ground arith
to_signed_range_32 (negsuc n) = ground arith

pub to_signed_range_64 :
    (z : ℤ)
    → (negsuc (2 ^ 63 - 1) ≤ℤ to_signed (2 ^ 63) z) × (to_signed (2 ^ 63) z ≤ℤ pos (2 ^ 63 - 1))
unfolding to_signed
to_signed_range_64 (pos n) = ground arith
to_signed_range_64 (negsuc n) = ground arith
