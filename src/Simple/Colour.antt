-- ===== src/Simple/Colour.antt =====
-- The colour metric of example/simple/simple.cpp: what is stored is what the next fetch goes on from.
use pcp_pmda_cpp.Base.{
  ℕ, zero, suc, ◌+◌, ◌%◌, ◌≤◌, ◌<◌, ◌≡◌, ◌≢◌, refl, ap, sym, subst, arith, false, Bool-cases, inl,
  inr, List, [], ◌∷◌, All, length, set, get_elem?, some, ◌==◌, ltb,
}
use pcp_pmda_cpp.Base.Int.{ℤ, pos, negsuc, is_neg, ltb_ℤ}
use pcp_pmda_cpp.Pcp.{Pmapi}
use pcp_pmda_cpp.Exception.{ok}
use pcp_pmda_cpp.Atom.Words.{to_unsigned, to_unsigned_id}
use pcp_pmda_cpp.Atom.Defs.{Floats, integer, atom}
use pcp_pmda_cpp.Pmda.State.{Pmda, MetricId, static_result}
use pcp_pmda_cpp.Simple.Defs.{Simple, Surroundings, fetch_value, store_value, refresh_times}

get_elem?-set : (xs : List ℕ) (i v : ℕ) → i < length xs → get_elem? (set xs i v) i ≡ some v
get_elem?-set [] i v h = ground arith
get_elem?-set (x ∷ xs) zero v h = refl
get_elem?-set (x ∷ xs) (suc i) v h = get_elem?-set xs i v (omega arith)

set-set : (xs : List ℕ) (i v w : ℕ) → set (set xs i v) i w ≡ set xs i w
set-set [] i v w = refl
set-set (x ∷ xs) zero v w = refl
set-set (x ∷ xs) (suc i) v w = ap (◌∷◌ x) (set-set xs i v w)

length-set : (xs : List ℕ) (i v : ℕ) → length (set xs i v) ≡ length xs
length-set [] i v = refl
length-set (x ∷ xs) zero v = refl
length-set (x ∷ xs) (suc i) v = ap suc (length-set xs i v)

All-set :
    (xs : List ℕ) (i v : ℕ) → v < 256 → All (λ x. x < 256) xs → All (λ x. x < 256) (set xs i v)
All-set [] i v h a = tt
All-set (x ∷ xs) zero v h a = (h, a.1)
All-set (x ∷ xs) (suc i) v h a = (a.0, All-set xs i v h a.1)

-- Three components, each one byte.
unfoldable pub IsColour : List ℕ → Type 0
IsColour rgb = (length rgb ≡ 3) × All (λ x. x < 256) rgb

IsColour-set : (rgb : List ℕ) (i v : ℕ) → v < 256 → IsColour rgb → IsColour (set rgb i v)
unfolding IsColour
IsColour-set rgb i v h c = (ground (arith, length-set rgb i v), All-set rgb i v h c.1)

pub byte-lt : (n : ℕ) → n % 256 < 256
byte-lt n = omega arith

pub not_equal : (a b : ℕ) → a ≢ b → (a == b) ≡ false
not_equal a b h = ground (arith, h)

module _ (fl : Floats) (api : Pmapi) (env : Surroundings fl) where
  refresh_times-rgb : (m : Simple fl) → (refresh_times fl env m).rgb ≡ m.rgb
  unfolding refresh_times
  refresh_times-rgb m = elim (Bool-cases (ltb m.oldfetch m.numfetch)) [
    | inl e ↦ rw e refl
    | inr e ↦ rw e refl
  ]

  fetch_value-IsColour :
      (id : MetricId) (s : Pmda (Simple fl))
      → IsColour s.agent.rgb
      → IsColour (fetch_value fl api env id s).1.agent.rgb
  unfolding fetch_value
  fetch_value-IsColour id s c = elim (Bool-cases (id.cluster == 1)) [
    | inl e ↦ rw e (subst IsColour (sym (refresh_times-rgb s.agent)) c)
    | inr e ↦ elim (Bool-cases (id.cluster == 2)) [
      | inl f ↦ rw (e, f) c
      | inr f ↦ elim (Bool-cases (id.item == 0)) [
        | inl g ↦ rw (e, f, g) c
        | inr g ↦ rw (e, f, g) (IsColour-set s.agent.rgb id.instance_id _ (byte-lt _) c)
      ]
    ]
  ]

  store_value-IsColour :
      (id : MetricId) (value : ℤ) (s : Pmda (Simple fl))
      → IsColour s.agent.rgb
      → IsColour (store_value fl api id value s).1.agent.rgb
  unfolding store_value to_unsigned
  store_value-IsColour id value s c = elim (Bool-cases (id.item == 0)) [
    | inl e ↦ rw e c
    | inr e ↦ elim (Bool-cases (is_neg value)) [
      | inl f ↦ rw (e, f) c
      | inr f ↦ elim (Bool-cases (ltb_ℤ (pos 255) value)) [
        | inl g ↦ rw (e, f, g) c
        | inr g ↦
            rw (e, f, g)
              (IsColour-set s.agent.rgb id.instance_id (to_unsigned 256 value) (to_byte-lt value) c)
      ]
    ]
  ]
    where
      to_byte-lt : (z : ℤ) → to_unsigned 256 z < 256
      to_byte-lt (pos n) = omega arith
      to_byte-lt (negsuc n) = omega arith

  -- A colour stays three bytes, whatever is fetched or stored.
  pub fetch_store-IsColour :
      (id : MetricId) (value : ℤ) (s : Pmda (Simple fl))
      → IsColour s.agent.rgb
      → IsColour (fetch_value fl api env id s).1.agent.rgb
        × IsColour (store_value fl api id value s).1.agent.rgb
  fetch_store-IsColour id value s c =
      (fetch_value-IsColour id s c, store_value-IsColour id value s c)

  store_value-stored :
      (id : MetricId) (v : ℕ) (s : Pmda (Simple fl))
      → id.item ≢ 0
      → v ≤ 255
      → store_value fl api id (pos v) s
        ≡ (ok tt, record s { agent = record s.agent { rgb = set s.agent.rgb id.instance_id v } })
  unfolding store_value
  store_value-stored id v s hi hv =
      rw (not_equal id.item 0 hi, not_over, to_unsigned_id 256 v (omega (arith, hv))) refl
    where
      not_over : ltb_ℤ (pos 255) (pos v) ≡ false
      not_over = ground (arith, hv)

  -- A component between 0 and 255 that is stored is the one that the next fetch of the same
  -- instance adds one to, modulo 256; nothing else changes.
  pub store_value-fetch_value :
      (id id' : MetricId) (v : ℕ) (s : Pmda (Simple fl))
      → id.item ≢ 0
      → id'.cluster ≡ 0
      → id'.item ≢ 0
      → id'.instance_id ≡ id.instance_id
      → v ≤ 255
      → id.instance_id < length s.agent.rgb
      → ((store_value fl api id (pos v) s).0 ≡ ok tt)
        × (fetch_value fl api env id' (store_value fl api id (pos v) s).1 ≡ (
          static_result api (atom fl api id'.type (integer (pos ((v + 1) % 256)))),
          record s {
            agent = record s.agent { rgb = set s.agent.rgb id.instance_id ((v + 1) % 256) };
          },
        ))
  unfolding fetch_value
  store_value-fetch_value id id' v s hs hc hi same hv hl = rw (store_value-stored id v s hs hv) (
    refl,
    rw
        (
          hc,
          not_equal id'.item 0 hi,
          same,
          get_elem?-set s.agent.rgb id.instance_id v hl,
          set-set s.agent.rgb id.instance_id v ((v + 1) % 256),
        )
        refl,
  )
