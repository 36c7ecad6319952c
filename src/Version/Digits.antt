-- ===== src/Version/Digits.antt =====
-- strtoul (in include/pcp-cpp/config.hpp) of a number that operator<< has written.
use pcp_pmda_cpp.Base.{
  ℕ, suc, ◌+◌, ◌*◌, ◌<◌, ◌≡◌, refl, ◌∙◌, ap, sym, arith, Option-cases, inl, inr, Text, ◌∷◌, ◌++◌,
  digit, decimal,
}
use pcp_pmda_cpp.Base.Digits.{
  digit-lt, is_digit-digit, is_space-digit, no_sign, not_dot, emit-BeginsWithDigit, emit-read,
  emit-skip, decimal-emit,
}
use pcp_pmda_cpp.Version.Defs.{
  leading_digits, signed_digits, saturated, strtoul, after_first, after_last,
}

leading_digits-digit :
    (d : ℕ) (out : Text) (n : ℕ)
    → d < 10
    → leading_digits (digit d ∷ out) n ≡ leading_digits out ((10 * n) + d)
unfolding leading_digits
leading_digits-digit d out n h =
    rw (digit-lt d h, is_digit-digit d h) (ap (leading_digits out) (omega arith))

strtoul-digit :
    (d : ℕ) (out : Text)
    → d < 10
    → strtoul (digit d ∷ out) ≡ saturated (leading_digits (digit d ∷ out) 0)
unfolding strtoul signed_digits
strtoul-digit d out h = rw (is_space-digit d h, (no_sign d h).0, (no_sign d h).1) refl

pub strtoul-decimal :
    (n : ℕ) (rest : Text) → strtoul (decimal n ++ rest) ≡ saturated (leading_digits rest n)
strtoul-decimal n rest =
    let b = emit-BeginsWithDigit (suc n) n rest (omega arith) in
    ap strtoul (decimal-emit n rest ∙ b.splits)
    ∙ strtoul-digit b.first b.behind b.first-lt
    ∙ ap (λ s. saturated (leading_digits s 0)) (sym b.splits)
    ∙ ap saturated (emit-read leading_digits leading_digits-digit (suc n) n rest (omega arith))

pub after_first-decimal : (n : ℕ) (rest : Text) → after_first (decimal n ++ rest) ≡ after_first rest
after_first-decimal n rest =
    ap after_first (decimal-emit n rest)
    ∙ emit-skip after_first (λ d out h. rw (not_dot d h) refl) (suc n) n rest

after_last-digit : (d : ℕ) (out : Text) → d < 10 → after_last (digit d ∷ out) ≡ after_last out
after_last-digit d out h = elim (Option-cases (after_last out)) [
  | inl e ↦ rw (e, not_dot d h) refl
  | inr (t, e) ↦ rw e refl
]

pub after_last-decimal : (n : ℕ) (rest : Text) → after_last (decimal n ++ rest) ≡ after_last rest
after_last-decimal n rest =
    ap after_last (decimal-emit n rest) ∙ emit-skip after_last after_last-digit (suc n) n rest
