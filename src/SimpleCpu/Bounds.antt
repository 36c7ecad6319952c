-- ===== src/SimpleCpu/Bounds.antt =====
-- The numbers that are read fit their type (example/simplecpu/simplecpu.cpp).
use mathlib.Core.Option.{some-injective}
use pcp_pmda_cpp.Base.{
  ℕ, zero, suc, ◌<◌, ◌^◌, ◌≡◌, subst, arith, Bool, true, false, Bool-cases, Option-cases, inl, inr,
  ltb, ◌==◌, Text, codes, text_eq, take, List, [], ◌∷◌, All, length, get_elem?, Option, none, some,
}
use pcp_pmda_cpp.SimpleCpu.Stat.{
  CpuInfo, skip_spaces, split_space, read_digits, fitting, read_signed, extract, parse_line,
  parse_lines,
}
use pcp_pmda_cpp.SimpleCpu.Reading.{Reads, fails, gives, read_ticks-Reads}

-- A number that fits its type.
abbrev Fits : Option (ℕ × Text) → Type 0
Fits none = Unit
Fits (some (n, rest)) = n < 2 ^ 64

fitting-Fits : (negative : Bool) (r : Option ℕ × Text) → Fits (fitting negative r)
fitting-Fits negative (none, rest) = tt
fitting-Fits negative (some n, rest) = elim (Bool-cases (ltb n (2 ^ 64))) [
  | inl e ↦ rw e (ground arith)
  | inr e ↦ rw e tt
]

read_signed-Fits : (s : Text) → Fits (read_signed s)
unfolding read_signed
read_signed-Fits [] = tt
read_signed-Fits (a ∷ s) = elim (Bool-cases (a == b'-')) [
  | inl e ↦ rw e (fitting-Fits true (read_digits s none))
  | inr e ↦ elim (Bool-cases (a == b'+')) [
    | inl f ↦ rw (e, f) (fitting-Fits false (read_digits s none))
    | inr f ↦ rw (e, f) (fitting-Fits false (read_digits (a ∷ s) none))
  ]
]

extract-lt_64 : (s : Text) (n : ℕ) (rest : Text) → extract s ≡ some (n, rest) → n < 2 ^ 64
unfolding extract
extract-lt_64 s n rest e = subst Fits e (read_signed-Fits (skip_spaces s))

abbrev AllFit : List ℕ → Type 0
AllFit = All (λ n. n < 2 ^ 64)

Reads-AllFit : {s : Text} {ns : List ℕ} → Reads s ns → AllFit ns
Reads-AllFit (fails e) = tt
Reads-AllFit (gives e r) = (extract-lt_64 _ _ _ e, Reads-AllFit r)

abbrev LineFits : Option CpuInfo → Type 0
LineFits none = Unit
LineFits (some info) = AllFit info.ticks

parse_line-LineFits : (line : Text) → LineFits (parse_line line)
unfolding parse_line
parse_line-LineFits line = elim (Bool-cases (text_eq (take 3 line) (codes "cpu"))) [
  | inl e ↦ elim (Option-cases (split_space line)) [
    | inl f ↦ rw (e, f) tt
    | inr ((label, rest), f) ↦
        rw (e, f) (Reads-AllFit (read_ticks-Reads (suc (length rest)) rest (omega arith)))
  ]
  | inr e ↦ rw e tt
]

-- Every number that is read from the text is below 2 ^ 64.
pub parse_lines-AllFit : (lines : List Text) → All (λ info. AllFit info.ticks) (parse_lines lines)
unfolding parse_lines
parse_lines-AllFit [] = tt
parse_lines-AllFit (line ∷ lines) = elim (Option-cases (parse_line line)) [
  | inl e ↦ rw (parse_lines, e) (parse_lines-AllFit lines)
  | inr (info, e) ↦
      rw (parse_lines, e) (subst LineFits e (parse_line-LineFits line), parse_lines-AllFit lines)
]

pub All-get_elem? {ℓ κ} :
    {A : Type ℓ} (P : A → Type κ) (xs : List A) (i : ℕ) (x : A)
    → All P xs
    → get_elem? xs i ≡ some x
    → P x
All-get_elem? P [] i x a e = cc
All-get_elem? P (y ∷ xs) zero x a e = subst P (some-injective y x e) a.0
All-get_elem? P (y ∷ xs) (suc i) x a e = All-get_elem? P xs i x a.1 e
