-- ===== src/Base/Digits.antt =====
-- What a reader needs to know of the numbers that operator<< writes.
use pcp_pmda_cpp.Base.Tests.{Bool-cases, ltb, ltb→lt, ◌==◌}
use pcp_pmda_cpp.Base.Lists.{All}
use pcp_pmda_cpp.Base.Chars.{Text, digit, emit_digits, decimal, is_space, is_digit}
use Prim.Native.Nat.{ℕ, zero, suc, ◌+◌, ◌*◌, ◌/◌, ◌%◌, ◌<◌}
use mathlib.Core.Path.{◌≡◌, refl, ap, ◌∙◌}
use mathlib.Core.Logic.{inl, inr}
use mathlib.Core.Bool.{true, false}
use mathlib.Core.List.{[], ◌∷◌, ◌++◌}
use native.Mathlib.Omega.{arith}

pub digit-lt : (d : ℕ) → d < 10 → digit d ≡ b'0' + d
digit-lt d h = ground arith

pub is_digit-digit : (d : ℕ) → d < 10 → is_digit (b'0' + d) ≡ true
is_digit-digit d h = ground arith

pub is_space-digit : (d : ℕ) → d < 10 → is_space (digit d) ≡ false
unfolding is_space
is_space-digit d h = ground arith

pub no_sign : (d : ℕ) → d < 10 → ((digit d == b'+') ≡ false) × ((digit d == b'-') ≡ false)
no_sign d h = ground arith

pub not_dot : (d : ℕ) → d < 10 → (digit d == b'.') ≡ false
not_dot d h = ground arith

-- A number begins with a digit.
pub record BeginsWithDigit (s : Text) : Type 0 where
  pub first : ℕ
  pub behind : Text
  pub first-lt : first < 10
  pub splits : s ≡ digit first ∷ behind

pub emit-BeginsWithDigit :
    (fuel n : ℕ) (out : Text) → n < fuel → BeginsWithDigit (emit_digits 10 fuel n out)
unfolding emit_digits
emit-BeginsWithDigit zero n out h = ground arith
emit-BeginsWithDigit (suc fuel) n out h = elim (Bool-cases (ltb n 10)) [
  | inl e ↦ rw e (record { first = n % 10; behind = out; first-lt = omega arith; splits = refl })
  | inr e ↦ rw e (emit-BeginsWithDigit fuel (n / 10) (digit (n % 10) ∷ out) (ground (arith, e, h)))
]

-- A reader that takes the digits one by one, by Horner's rule, has the number at their end.
pub emit-read {ℓ} :
    {R : Type ℓ} (read : Text → ℕ → R)
    → ((d : ℕ) (out : Text) (n : ℕ) → d < 10 → read (digit d ∷ out) n ≡ read out ((10 * n) + d))
    → (fuel n : ℕ) (out : Text) → n < fuel
    → read (emit_digits 10 fuel n out) 0 ≡ read out n
unfolding emit_digits
emit-read read step zero n out h = ground arith
emit-read read step (suc fuel) n out h = elim (Bool-cases (ltb n 10)) [
  | inl e ↦ rw e (step (n % 10) out 0 (omega arith) ∙ ap (read out) (omega (arith, ltb→lt n 10 e)))
  | inr e ↦ rw e (
      emit-read read step fuel (n / 10) (digit (n % 10) ∷ out) (ground (arith, e, h))
      ∙ step (n % 10) out (n / 10) (omega arith)
      ∙ ap (read out) (omega arith))
]

-- A function that skips digits does not see a number.
pub emit-skip {ℓ} :
    {R : Type ℓ} (skip : Text → R)
    → ((d : ℕ) (out : Text) → d < 10 → skip (digit d ∷ out) ≡ skip out)
    → (fuel n : ℕ) (out : Text) → skip (emit_digits 10 fuel n out) ≡ skip out
unfolding emit_digits
emit-skip skip step zero n out = refl
emit-skip skip step (suc fuel) n out = elim (Bool-cases (ltb n 10)) [
  | inl e ↦ rw e (step (n % 10) out (omega arith))
  | inr e ↦
      rw e
        (emit-skip skip step fuel (n / 10) (digit (n % 10) ∷ out) ∙ step (n % 10) out (omega arith))
]

-- What holds of every digit holds of every character of a number.
pub emit-All {ℓ} :
    (P : ℕ → Type ℓ)
    → ((d : ℕ) → d < 10 → P (digit d))
    → (fuel n : ℕ) (out : Text) → All P out
    → All P (emit_digits 10 fuel n out)
unfolding emit_digits
emit-All P h zero n out a = a
emit-All P h (suc fuel) n out a = elim (Bool-cases (ltb n 10)) [
  | inl e ↦ rw e (h (n % 10) (omega arith), a)
  | inr e ↦ rw e (emit-All P h fuel (n / 10) (digit (n % 10) ∷ out) (h (n % 10) (omega arith), a))
]

emit-append :
    (fuel n : ℕ) (out rest : Text)
    → emit_digits 10 fuel n out ++ rest ≡ emit_digits 10 fuel n (out ++ rest)
unfolding emit_digits
emit-append zero n out rest = refl
emit-append (suc fuel) n out rest = elim (Bool-cases (ltb n 10)) [
  | inl e ↦ rw e refl
  | inr e ↦ rw e (emit-append fuel (n / 10) (digit (n % 10) ∷ out) rest)
]

-- What operator<< writes, before some text.
pub decimal-emit : (n : ℕ) (rest : Text) → decimal n ++ rest ≡ emit_digits 10 (suc n) n rest
unfolding decimal
decimal-emit n rest = emit-append (suc n) n [] rest
