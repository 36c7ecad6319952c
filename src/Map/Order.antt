-- ===== src/Map/Order.antt =====
-- `std::less` on the key types of the maps: numbers, pointers (by address) and strings.
use pcp_pmda_cpp.Base.{ℕ, ◌≡◌, refl, Bool, true, false, ◌&&◌, ◌||◌, [], ◌∷◌, arith, ltb, ◌==◌, Text}

-- A strict total order.
pub record Ord {ℓ} (K : Type ℓ) : Type ℓ where
  pub lt : K → K → Bool
  pub lt_irrefl : (a : K) → lt a a ≡ false
  pub lt_trans : (a b c : K) → lt a b ≡ true → lt b c ≡ true → lt a c ≡ true
  pub eq_of_not_lt : (a b : K) → lt a b ≡ false → lt b a ≡ false → a ≡ b

pub ltb_irrefl : (a : ℕ) → ltb a a ≡ false
ltb_irrefl a = ground arith

pub ltb_trans : (a b c : ℕ) → ltb a b ≡ true → ltb b c ≡ true → ltb a c ≡ true
ltb_trans a b c h k = ground arith

pub eq_of_not_ltb : (a b : ℕ) → ltb a b ≡ false → ltb b a ≡ false → a ≡ b
eq_of_not_ltb a b h k = ground arith

instance abbrev pub nat_ord : Ord ℕ
nat_ord = record {
  lt = ltb;
  lt_irrefl = ltb_irrefl;
  lt_trans = ltb_trans;
  eq_of_not_lt = eq_of_not_ltb;
}

-- `std::string::compare`, bytes from the left.
abbrev pub text_ltb : Text → Text → Bool
text_ltb [] [] = false
text_ltb [] (_ ∷ _) = true
text_ltb (_ ∷ _) [] = false
text_ltb (a ∷ s) (b ∷ t) = ltb a b || (a == b && text_ltb s t)

pub text_ltb_irrefl : (s : Text) → text_ltb s s ≡ false
text_ltb_irrefl [] = refl
text_ltb_irrefl (a ∷ s) = ground (arith, text_ltb_irrefl s)

pub text_ltb_trans :
    (s t u : Text) → text_ltb s t ≡ true → text_ltb t u ≡ true → text_ltb s u ≡ true
text_ltb_trans [] [] u h k = ground arith
text_ltb_trans [] (b ∷ t) [] h k = ground arith
text_ltb_trans [] (b ∷ t) (c ∷ u) h k = refl
text_ltb_trans (a ∷ s) [] u h k = ground arith
text_ltb_trans (a ∷ s) (b ∷ t) [] h k = ground arith
text_ltb_trans (a ∷ s) (b ∷ t) (c ∷ u) h k = ground (arith, text_ltb_trans s t u)

pub eq_of_not_text_ltb : (s t : Text) → text_ltb s t ≡ false → text_ltb t s ≡ false → s ≡ t
eq_of_not_text_ltb [] [] h k = refl
eq_of_not_text_ltb [] (b ∷ t) h k = ground arith
eq_of_not_text_ltb (a ∷ s) [] h k = ground arith
eq_of_not_text_ltb (a ∷ s) (b ∷ t) h k = ground (arith, eq_of_not_text_ltb s t)

instance abbrev pub text_ord : Ord Text
text_ord = record {
  lt = text_ltb;
  lt_irrefl = text_ltb_irrefl;
  lt_trans = text_ltb_trans;
  eq_of_not_lt = eq_of_not_text_ltb;
}
