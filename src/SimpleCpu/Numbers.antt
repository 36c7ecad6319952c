-- ===== src/SimpleCpu/Numbers.antt =====
-- Reading back the numbers of a line of /proc/stat (example/simplecpu/simplecpu.cpp).
use mathlib.Core.Option.{some-injective}
use pcp_pmda_cpp.Base.{
  ℕ, zero, suc, ◌+◌, ◌*◌, ◌<◌, ◌^◌, ◌≡◌, refl, ap, sym, ◌∙◌, subst, arith, false, Text, digit,
  decimal, is_space, List, [], ◌∷◌, ◌++◌, All, length, replicate, Option, none, some, or_else,
  emit_digits,
}
use pcp_pmda_cpp.Base.Digits.{
  digit-lt, is_digit-digit, is_space-digit, no_sign, emit-BeginsWithDigit, emit-read, decimal-emit,
}
use pcp_pmda_cpp.SimpleCpu.Stat.{
  skip_spaces, read_digits, fitting, read_signed, extract, read_ticks,
}
use pcp_pmda_cpp.SimpleCpu.Reading.{Reads, fails, gives, read_ticks-Reads}

-- Each count behind a space.
abbrev pub ticks_text : List ℕ → Text
ticks_text [] = []
ticks_text (n ∷ ns) = b' ' ∷ (decimal n ++ ticks_text ns)

Reads-unique : (s : Text) (ns ms : List ℕ) → Reads s ns → Reads s ms → ns ≡ ms
Reads-unique s [] [] (fails e) (fails f) = refl
Reads-unique s [] (m ∷ ms) (fails e) (gives f r) = cc
Reads-unique s (n ∷ ns) [] (gives e r) (fails f) = cc
Reads-unique s (n ∷ ns) (m ∷ ms) (gives {rest} e r) (gives {rest = rest'} f q) =
    let same : (n, rest) ≡ (m, rest') = some-injective (n, rest) (m, rest') (sym e ∙ f) in
    rw (ap (λ p. p.0) same)
      (ap (◌∷◌ m) (Reads-unique rest' ns ms (subst (λ t. Reads t ns) (ap (λ p. p.1) same) r) q))

-- What follows a number: nothing, or a space.
abbrev Ends : Text → Type 0
Ends [] = Unit
Ends (a ∷ s) = a ≡ b' '

read_digits-Ends : (s : Text) (value : Option ℕ) → Ends s → read_digits s value ≡ (value, s)
unfolding read_digits
read_digits-Ends [] value h = refl
read_digits-Ends (a ∷ s) value h = rw h refl

read_digits-digit :
    (d : ℕ) (s : Text) (value : Option ℕ)
    → d < 10
    → read_digits (digit d ∷ s) value ≡ read_digits s (some ((10 * or_else value 0) + d))
unfolding read_digits
read_digits-digit d s value h =
    rw (digit-lt d h, is_digit-digit d h) (ap (λ v. read_digits s (some v)) (omega arith))

-- Before a digit it makes no difference that nothing has been read yet.
read_digits-begin :
    (d : ℕ) (s : Text)
    → d < 10
    → read_digits (digit d ∷ s) none ≡ read_digits (digit d ∷ s) (some 0)
read_digits-begin d s h = read_digits-digit d s none h ∙ sym (read_digits-digit d s (some 0) h)

read_digits-decimal :
    (n : ℕ) (rest : Text)
    → Ends rest
    → read_digits (emit_digits 10 (suc n) n rest) (some 0) ≡ (some n, rest)
read_digits-decimal n rest e =
    emit-read (λ s v. read_digits s (some v)) (λ d out v h. read_digits-digit d out (some v) h)
      (suc n) n rest (omega arith)
    ∙ read_digits-Ends rest (some n) e

fitting_id : (n : ℕ) (rest : Text) → n < 2 ^ 64 → fitting false (some n, rest) ≡ some (n, rest)
fitting_id n rest h = ground (arith, h)

read_signed-digit :
    (d : ℕ) (s : Text)
    → d < 10
    → read_signed (digit d ∷ s) ≡ fitting false (read_digits (digit d ∷ s) none)
unfolding read_signed
read_signed-digit d s h = rw ((no_sign d h).0, (no_sign d h).1) refl

skip_spaces-digit : (d : ℕ) (s : Text) → d < 10 → skip_spaces (digit d ∷ s) ≡ digit d ∷ s
unfolding skip_spaces
skip_spaces-digit d s h = rw (is_space-digit d h) refl

extract-digit :
    (d : ℕ) (s : Text) (n : ℕ) (rest : Text)
    → d < 10
    → n < 2 ^ 64
    → read_digits (digit d ∷ s) (some 0) ≡ (some n, rest)
    → extract (digit d ∷ s) ≡ some (n, rest)
unfolding extract
extract-digit d s n rest h small e =
    ap read_signed (skip_spaces-digit d s h)
    ∙ read_signed-digit d s h
    ∙ ap (fitting false) (read_digits-begin d s h ∙ e)
    ∙ fitting_id n rest small

-- A number is read where it begins.
extract-decimal :
    (n : ℕ) (rest : Text) → n < 2 ^ 64 → Ends rest → extract (decimal n ++ rest) ≡ some (n, rest)
extract-decimal n rest h e =
    let begins = emit-BeginsWithDigit (suc n) n rest (omega arith) in
    subst (λ t. extract t ≡ some (n, rest)) (sym (decimal-emit n rest ∙ begins.splits))
      (extract-digit begins.first begins.behind n rest begins.first-lt h (
        subst (λ t. read_digits t (some 0) ≡ (some n, rest)) begins.splits
          (read_digits-decimal n rest e)))

extract-space : (s : Text) → extract (b' ' ∷ s) ≡ extract s
unfolding extract skip_spaces is_space
extract-space s = refl

extract-spaces : (k : ℕ) (s : Text) → extract (replicate k b' ' ++ s) ≡ extract s
extract-spaces zero s = refl
extract-spaces (suc k) s = extract-space (replicate k b' ' ++ s) ∙ extract-spaces k s

Reads-from : (s t : Text) (ns : List ℕ) → extract s ≡ extract t → Reads t ns → Reads s ns
Reads-from s t [] e (fails f) = fails (e ∙ f)
Reads-from s t (n ∷ ns) e (gives f r) = gives (e ∙ f) r

ticks_text-Ends : (ns : List ℕ) → Ends (ticks_text ns)
ticks_text-Ends [] = tt
ticks_text-Ends (n ∷ ns) = refl

ticks_text-Reads : (ns : List ℕ) → All (λ n. n < 2 ^ 64) ns → Reads (ticks_text ns) ns
unfolding extract
ticks_text-Reads [] h = fails refl
ticks_text-Reads (n ∷ ns) h =
    gives (extract-space _ ∙ extract-decimal n (ticks_text ns) h.0 (ticks_text-Ends ns))
      (ticks_text-Reads ns h.1)

pub read_ticks-text :
    (k : ℕ) (ns : List ℕ)
    → All (λ n. n < 2 ^ 64) ns
    → let s = replicate k b' ' ++ ticks_text ns in read_ticks (suc (length s)) s ≡ ns
read_ticks-text k ns h =
    let s = replicate k b' ' ++ ticks_text ns in
    Reads-unique s (read_ticks (suc (length s)) s) ns
      (read_ticks-Reads (suc (length s)) s (omega arith))
      (Reads-from s (ticks_text ns) ns (extract-spaces k (ticks_text ns)) (ticks_text-Reads ns h))
