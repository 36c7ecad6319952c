-- ===== src/Base/Chars.antt =====
-- std::string as its bytes: literals, comparison, and numbers written in decimal.
use Prim.Native.Char.{code}
use Prim.Native.Nat.{ℕ, zero, suc, ◌+◌, ◌-◌, ◌/◌, ◌%◌}
use Prim.Native.String.{String}
use mathlib.Core.Path.{◌≡◌, refl}
use mathlib.Core.Bool.{Bool, true, false, ◌&&◌, ◌||◌}
use mathlib.Core.List.{List, [], ◌∷◌}
use native.Mathlib.Omega.{arith}
use pcp_pmda_cpp.Base.Tests.{leb, ltb, ◌==◌, if◌then◌else◌}

abbrev pub Text : Type 0
Text = List ℕ

abbrev pub codes : String → Text
codes String.[] = []
codes (String.◌∷◌ c s) = code c ∷ codes s

-- `a == b` on strings.
abbrev pub text_eq : Text → Text → Bool
text_eq [] [] = true
text_eq [] (_ ∷ _) = false
text_eq (_ ∷ _) [] = false
text_eq (a ∷ s) (b ∷ t) = a == b && text_eq s t

pub text_eq_refl : (s : Text) → text_eq s s ≡ true
text_eq_refl [] = refl
text_eq_refl (a ∷ s) = ground (arith, text_eq_refl s)

pub eq_of_text_eq : (s t : Text) → text_eq s t ≡ true → s ≡ t
eq_of_text_eq [] [] h = refl
eq_of_text_eq [] (_ ∷ _) h = ground arith
eq_of_text_eq (_ ∷ _) [] h = ground arith
eq_of_text_eq (a ∷ s) (b ∷ t) h = ground (arith, eq_of_text_eq s t)

-- The C string that `c_str()` of a string is read as: it ends at the first NUL.
unfoldable pub c_str : Text → Text
c_str [] = []
c_str (a ∷ s) = if a == 0 then [] else a ∷ c_str s

-- `isspace` of the C locale.
unfoldable pub is_space : ℕ → Bool
is_space a = a == b' ' || (leb 9 a && leb a 13)

abbrev pub is_digit : ℕ → Bool
is_digit a = leb b'0' a && leb a b'9'

-- `::toupper` of the C locale on one byte.
unfoldable pub to_upper : ℕ → ℕ
to_upper c = if leb b'a' c && leb c b'z' then c - 32 else c

-- A digit of a number written in a base up to sixteen.
abbrev pub digit : ℕ → ℕ
digit d = if ltb d 10 then b'0' + d else b'a' + (d - 10)

-- The digits of `n` in the base, most significant first, before those in `out`; each round divides
-- by the base, so that `suc n` rounds are enough.
unfoldable pub emit_digits : ℕ → ℕ → ℕ → Text → Text
emit_digits base zero n out = out
emit_digits base (suc fuel) n out =
    let out' = digit (n % base) ∷ out in
    let rest = emit_digits base fuel (n / base) out' in if ltb n base then out' else rest

-- What `operator<<` writes for an unsigned number.
unfoldable pub decimal : ℕ → Text
unfolding emit_digits
decimal n = emit_digits 10 (suc n) n []

-- The same under std::hex, and what `%x` writes.
unfoldable pub hexadecimal : ℕ → Text
unfolding emit_digits
hexadecimal n = emit_digits 16 (suc n) n []

decimal_example : decimal 4099 ≡ codes "4099"
unfolding decimal
decimal_example = refl

hexadecimal_example : hexadecimal 200714 ≡ codes "3100a"
unfolding hexadecimal
hexadecimal_example = refl
