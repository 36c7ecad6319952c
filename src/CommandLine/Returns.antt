-- ===== src/CommandLine/Returns.antt =====
-- What holds of the value of a method whenever it returns one, and of the steps that
-- parse_command_line takes for an option (include/pcp-cpp/pmda.hpp).
use pcp_pmda_cpp.Base.{◌≡◌, refl, ap, subst, arith, Text, none, some, Option-cases, inl, inr}
use pcp_pmda_cpp.Map.{find, text_ord}
use pcp_pmda_cpp.Exception.{Result, ok, err}
use pcp_pmda_cpp.Pmda.State.{Pmda, Method, ◌>>=◌, pure, lift}
use pcp_pmda_cpp.CommandLine.Defs.{Options, Variable, Value}
use pcp_pmda_cpp.CommandLine.Parse.{when_given}

-- Whenever the method returns a value, the value satisfies `P`.
unfoldable pub Returns {ℓ κ μ} :
    {S : Type ℓ} {A : Type κ} → Method S A → (A → Type μ) → Type (ℓ ⊔ κ ⊔ μ)
Returns {S} {A} m P = (s s' : Pmda S) (a : A) → m s ≡ (ok a, s') → P a

abbrev from_ok {κ} : {A : Type κ} → A → Result A → A
from_ok d (ok a) = a
from_ok d (err e) = d

pub Returns-bind {ℓ κ μ ν ξ} :
    {S : Type ℓ} {A : Type κ} {B : Type μ} (m : Method S A) (f : A → Method S B) (P : A → Type ν)
    (Q : B → Type ξ)
    → Returns m P
    → ((a : A) → P a → Returns (f a) Q)
    → Returns (m >>= f) Q
unfolding Returns
Returns-bind {S} {A} {B} m f P Q hm hf s s' b e = go (m s).0 (m s).1 refl e
  where
    go :
        (r : Result A) (s1 : Pmda S)
        → m s ≡ (r, s1)
        → (elim r as (λ x. Result B × Pmda S) [ ok a ↦ f a s1 | err x ↦ (err x, s1) ]) ≡ (ok b, s')
        → Q b
    go (ok a) s1 em e1 = hf a (hm s s1 a em) s1 s' b e1
    go (err x) s1 em e1 = ground (arith, e1)

pub Returns-pure {ℓ κ μ} :
    (S : Type ℓ) {A : Type κ} (a : A) (P : A → Type μ) → P a → Returns {S = S} (pure a) P
unfolding Returns
Returns-pure S a P h s s' b e = subst P (ap (λ r. from_ok a r.0) e) h

pub Returns-any {ℓ κ} : {S : Type ℓ} {A : Type κ} (m : Method S A) → Returns m (λ a. Unit {0})
unfolding Returns
Returns-any m s s' a e = tt

pub Returns-given {ℓ κ μ} :
    (S : Type ℓ) {A : Type κ} (o : Options) (name : Text) (a : A) (f : Value → Method S A)
    (P : A → Type μ)
    → (find name o ≡ none → P a)
    → ((v : Variable) → find name o ≡ some v → Returns (f v.value) P)
    → Returns (when_given o name a f) P
Returns-given S o name a f P hn hs = elim (Option-cases (find name o)) [
  | inl e ↦ rw (when_given, e) (Returns-pure S a P (hn e))
  | inr (v, e) ↦ rw (when_given, e) (hs v e)
]

-- An option that sets something by its value, read by `get`.
pub Returns-set {ℓ κ μ ν} :
    (S : Type ℓ) {A : Type κ} {B : Type ν} (o : Options) (name : Text) (a : A)
    (get : Value → Method S B) (set_ : B → A) (P : A → Type μ)
    → (find name o ≡ none → P a)
    → ((v : Variable) → find name o ≡ some v → (b : B) → P (set_ b))
    → Returns (when_given o name a (λ v. get v >>= λ b. pure (set_ b))) P
Returns-set S o name a get set_ P hn hs =
    Returns-given S o name a (λ v. get v >>= λ b. pure (set_ b)) P hn
      (λ v e.
        Returns-bind (get v.value) _ _ P (Returns-any _)
          (λ b u. Returns-pure S (set_ b) P (hs v e b)))

pub Returns-lift {ℓ κ} :
    (S : Type ℓ) {A : Type κ} (r : Result A) → Returns {S = S} (lift r) (λ a. r ≡ ok a)
unfolding Returns
Returns-lift S r s s' a e = ap (λ p. p.0) e
