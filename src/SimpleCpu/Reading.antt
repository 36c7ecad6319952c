-- ===== src/SimpleCpu/Reading.antt =====
-- The loop that reads the numbers of a line ends, and where
-- (example/simplecpu/simplecpu.cpp).
use pcp_pmda_cpp.Base.{
  ℕ, zero, suc, ◌+◌, ◌-◌, ◌*◌, ◌≤◌, ◌<◌, ◌^◌, ◌≡◌, arith, Bool, true, false, Bool-cases,
  Option-cases, inl, inr, ltb, ◌==◌, Text, is_digit, List, [], ◌∷◌, length, Option, none, some,
  or_else,
}
use pcp_pmda_cpp.SimpleCpu.Stat.{
  skip_spaces, read_digits, fitting, read_signed, extract, read_ticks,
}

-- The numbers that the stream gives until it fails.
pub data Reads : Text → List ℕ → Type 0 where
  fails : {s : Text} → extract s ≡ none → Reads s []
  gives :
      {s : Text} {n : ℕ} {rest : Text} {ns : List ℕ}
      → extract s ≡ some (n, rest)
      → Reads rest ns
      → Reads s (n ∷ ns)

length-skip_spaces : (s : Text) → length (skip_spaces s) ≤ length s
unfolding skip_spaces
length-skip_spaces [] = omega arith
length-skip_spaces (a ∷ s) = ground (arith, length-skip_spaces s)

length-read_digits : (s : Text) (value : Option ℕ) → length (read_digits s value).1 ≤ length s
unfolding read_digits
length-read_digits [] value = omega arith
length-read_digits (a ∷ s) value = elim (Bool-cases (is_digit a)) [
  | inl e ↦ rw e (omega (arith, length-read_digits s (some ((10 * or_else value 0) + (a - b'0')))))
  | inr e ↦ rw e (omega arith)
]

-- A result that leaves less than there was.
abbrev Shorter : Text → Option (ℕ × Text) → Type 0
Shorter s none = Unit
Shorter s (some (n, rest)) = length rest < length s

fitting-Shorter :
    (s : Text) (negative : Bool) (n : ℕ) (rest : Text)
    → length rest < length s
    → Shorter s (fitting negative (some n, rest))
fitting-Shorter s negative n rest h = elim (Bool-cases (ltb n (2 ^ 64))) [
  | inl e ↦ rw e h
  | inr e ↦ rw e tt
]

fitting-some-Shorter :
    (s : Text) (negative : Bool) (n : ℕ) (t : Text)
    → length (read_digits t (some n)).1 < length s
    → Shorter s (fitting negative (read_digits t (some n)))
fitting-some-Shorter s negative n t h = go (read_digits t (some n)).0 (read_digits t (some n)).1 h
  where
    go :
        (o : Option ℕ) (rest : Text)
        → length rest < length s
        → Shorter s (fitting negative (o, rest))
    go none rest k = tt
    go (some m) rest k = fitting-Shorter s negative m rest k

read_digits-Shorter :
    (negative : Bool) (s : Text) → Shorter s (fitting negative (read_digits s none))
unfolding read_digits
read_digits-Shorter negative [] = tt
read_digits-Shorter negative (a ∷ s) = elim (Bool-cases (is_digit a)) [
  | inl e ↦ rw e (
      fitting-some-Shorter (a ∷ s) negative ((10 * 0) + (a - b'0')) s
        (omega (arith, length-read_digits s (some ((10 * 0) + (a - b'0'))))))
  | inr e ↦ rw e tt
]

Shorter-le : (s t : Text) (o : Option (ℕ × Text)) → length s ≤ length t → Shorter s o → Shorter t o
Shorter-le s t none h k = tt
Shorter-le s t (some (n, rest)) h k = omega arith

read_signed-Shorter : (s : Text) → Shorter s (read_signed s)
unfolding read_signed
read_signed-Shorter [] = tt
read_signed-Shorter (a ∷ s) = elim (Bool-cases (a == b'-')) [
  | inl e ↦ rw e (Shorter-le s (a ∷ s) _ (omega arith) (read_digits-Shorter true s))
  | inr e ↦ elim (Bool-cases (a == b'+')) [
    | inl f ↦ rw (e, f) (Shorter-le s (a ∷ s) _ (omega arith) (read_digits-Shorter false s))
    | inr f ↦ rw (e, f) (read_digits-Shorter false (a ∷ s))
  ]
]

extract-Shorter : (s : Text) → Shorter s (extract s)
unfolding extract
extract-Shorter s =
    Shorter-le (skip_spaces s) s _ (length-skip_spaces s) (read_signed-Shorter (skip_spaces s))

pub extract-lt :
    (s : Text) (n : ℕ) (rest : Text) → extract s ≡ some (n, rest) → length rest < length s
extract-lt s n rest e = rw e at (extract-Shorter s)

-- One round more than the line has characters is enough: the numbers that are read are all that
-- the stream gives before it fails.
pub read_ticks-Reads : (fuel : ℕ) (s : Text) → length s < fuel → Reads s (read_ticks fuel s)
unfolding read_ticks
read_ticks-Reads zero s h = ground arith
read_ticks-Reads (suc fuel) s h = elim (Option-cases (extract s)) [
  | inl e ↦ rw (read_ticks, e) (fails e)
  | inr ((n, rest), e) ↦
      rw (read_ticks, e)
        (gives e (read_ticks-Reads fuel rest (omega (arith, extract-lt s n rest e))))
]
