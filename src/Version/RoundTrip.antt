-- ===== src/Version/RoundTrip.antt =====
-- get_pcp_runtime_version (include/pcp-cpp/config.hpp) of a version string with three numbers.
use pcp_pmda_cpp.Base.{
  ℕ, ◌+◌, ◌*◌, ◌%◌, ◌^◌, ◌<◌, ◌≡◌, refl, ◌∙◌, ap, sym, arith, false, ◌==◌, Text, [], ◌∷◌, ◌++◌,
  append-nil, decimal, length, length-append, none, some,
}
use pcp_pmda_cpp.Version.Defs.{
  numeric_version, strtoul, after_first, after_last, saturated, leading_digits,
}
use pcp_pmda_cpp.Version.Digits.{strtoul-decimal, after_first-decimal, after_last-decimal}

-- MAJOR.MINOR.PATCH.
pub version_text : ℕ → ℕ → ℕ → Text
version_text a b c = decimal a ++ (b'.' ∷ (decimal b ++ (b'.' ∷ decimal c)))

decimal-plain : (n : ℕ) → (after_last (decimal n) ≡ none) × (strtoul (decimal n) ≡ saturated n)
unfolding leading_digits
decimal-plain n = (
  ap after_last (sym (append-nil (decimal n))) ∙ after_last-decimal n [],
  ap strtoul (sym (append-nil (decimal n))) ∙ strtoul-decimal n [],
)

saturated_id : (n : ℕ) → n < 2 ^ 32 → saturated n ≡ n
saturated_id n h = ground arith

longer-ne : (b c : ℕ) → (length (decimal b ++ (b'.' ∷ decimal c)) == length (decimal c)) ≡ false
longer-ne b c = ground (arith, length-append (decimal b) (b'.' ∷ decimal c))

after_last-later : (a : ℕ) (s t : Text) → after_last s ≡ some t → after_last (a ∷ s) ≡ some t
after_last-later a s t e = rw e refl

after_last-here : (s : Text) → after_last s ≡ none → after_last (b'.' ∷ s) ≡ some s
after_last-here s e = rw e refl

abbrev combined : ℕ → ℕ → ℕ → ℕ
combined a b c = ((((a * 2 ^ 16) % 2 ^ 64) + ((b * 2 ^ 8) % 2 ^ 64)) + c) % 2 ^ 64

numeric_version-combined :
    (s t u : Text)
    → after_first s ≡ some t
    → after_last s ≡ some u
    → (length t == length u) ≡ false
    → numeric_version s ≡ combined (strtoul s) (strtoul t) (strtoul u)
unfolding numeric_version
numeric_version-combined s t u f l n = rw (numeric_version, f, l, n) refl

-- A version string of three numbers below 2^32 gives the number that has them 16 and 8 bits apart.
pub numeric_version-version_text :
    (a b c : ℕ)
    → a < 2 ^ 32
    → b < 2 ^ 32
    → c < 2 ^ 32
    → numeric_version (version_text a b c) ≡ (a * 2 ^ 16) + (b * 2 ^ 8) + c
unfolding version_text leading_digits
numeric_version-version_text a b c ha hb hc =
    numeric_version-combined (version_text a b c) (decimal b ++ (b'.' ∷ decimal c)) (decimal c)
      (after_first-decimal a (b'.' ∷ (decimal b ++ (b'.' ∷ decimal c)))) last (longer-ne b c)
    ∙ rw
        (
          strtoul-decimal a (b'.' ∷ (decimal b ++ (b'.' ∷ decimal c))),
          strtoul-decimal b (b'.' ∷ decimal c),
          (decimal-plain c).1,
          saturated_id a ha,
          saturated_id b hb,
          saturated_id c hc,
        )
        (omega arith)
  where
    last : after_last (version_text a b c) ≡ some (decimal c)
    last =
        after_last-decimal a (b'.' ∷ (decimal b ++ (b'.' ∷ decimal c)))
        ∙ after_last-later b'.' (decimal b ++ (b'.' ∷ decimal c)) (decimal c) (
            after_last-decimal b (b'.' ∷ decimal c)
            ∙ after_last-here (decimal c) (decimal-plain c).0)
