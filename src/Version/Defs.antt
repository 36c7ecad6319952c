-- ===== src/Version/Defs.antt =====
-- get_pcp_runtime_version of include/pcp-cpp/config.hpp; the version string is libpcp's.
use pcp_pmda_cpp.Base.{
  ℕ, is_space, is_digit, ◌+◌, ◌-◌, ◌*◌, ◌%◌, ◌^◌, ◌≡◌, refl, ◌==◌, ltb, if◌then◌else◌, Text, codes,
  [], ◌∷◌, Option, none, some, length,
}
use pcp_pmda_cpp.Pcp.{Pmapi}

-- What follows the first `.`, and what follows the last one.
abbrev pub after_first : Text → Option Text
after_first [] = none
after_first (a ∷ s) = if a == b'.' then some s else after_first s

abbrev pub after_last : Text → Option Text
after_last [] = none
after_last (a ∷ s) =
    let later = after_last s in
    elim later [ some t ↦ some t | none ↦ if a == b'.' then some s else none ]

-- The value of the leading digits, with the digits read so far in `n`; ULONG_MAX on overflow.
unfoldable pub leading_digits : Text → ℕ → ℕ
leading_digits [] n = n
leading_digits (a ∷ s) n = if is_digit a then leading_digits s ((10 * n) + (a - b'0')) else n

abbrev pub saturated : ℕ → ℕ
saturated n = if ltb n (2 ^ 64) then n else 2 ^ 64 - 1

-- Behind a minus sign, where an overflow gives ULONG_MAX too.
abbrev pub negated : ℕ → ℕ
negated n = if ltb n (2 ^ 64) then (2 ^ 64 - n) % 2 ^ 64 else 2 ^ 64 - 1

unfoldable pub signed_digits : Text → ℕ
unfolding leading_digits
signed_digits [] = 0
signed_digits (a ∷ s) =
    if a == b'+'
    then saturated (leading_digits s 0)
    else if a == b'-'
    then negated (leading_digits s 0)
    else saturated (leading_digits (a ∷ s) 0)

-- strtoul(s, NULL, 10), where unsigned long has 64 bits.
unfoldable pub strtoul : Text → ℕ
unfolding is_space signed_digits
strtoul [] = 0
strtoul (a ∷ s) = if is_space a then strtoul s else signed_digits (a ∷ s)

-- The numeric version; a string with fewer than two dots gives 0.
unfoldable pub numeric_version : Text → ℕ
unfolding strtoul
numeric_version s = elim (after_first s) [
  | none ↦ 0
  | some t ↦ elim (after_last s) [
    | none ↦ 0
    | some u ↦
        if length t == length u
        then 0
        else ((((strtoul s * 2 ^ 16) % 2 ^ 64) + ((strtoul t * 2 ^ 8) % 2 ^ 64)) + strtoul u)
          % 2 ^ 64
  ]
]

unfoldable pub get_pcp_runtime_version : Pmapi → ℕ
unfolding numeric_version
get_pcp_runtime_version api = numeric_version (api.get_config (codes "PCP_VERSION"))

numeric_version_example : numeric_version (codes "3.10.2") ≡ 0x30a02
unfolding numeric_version
numeric_version_example = refl

one_dot_example : numeric_version (codes "3.10") ≡ 0
unfolding numeric_version
one_dot_example = refl
