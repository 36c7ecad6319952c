-- ===== src/Map/Defs.antt =====
-- The operations of std::map that the headers call.
use pcp_pmda_cpp.Base.{
  ℕ, Bool, true, false, List, [], ◌∷◌, map, Option, none, some, if◌then◌else◌, length,
}
use pcp_pmda_cpp.Map.Order.{Ord}

-- The entries in the order in which the iterators visit them.
abbrev pub Map {ℓ κ} : Type ℓ → Type κ → Type (ℓ ⊔ κ)
Map K V = List (K × V)

module _ {ℓ κ} {K : Type ℓ} {V : Type κ} ⦃o : Ord K⦄ where
  -- `m.insert(std::make_pair(k, v))`; an entry under `k` is kept.
  unfoldable pub insert : K → V → Map K V → Map K V
  insert k v [] = (k, v) ∷ []
  insert k v ((j, w) ∷ m) =
      if o.lt k j
      then (k, v) ∷ (j, w) ∷ m
      else if o.lt j k
      then (j, w) ∷ insert k v m
      else (j, w) ∷ m

  -- `m.find(k)`
  unfoldable pub find : K → Map K V → Option V
  find k [] = none
  find k ((j, w) ∷ m) = if o.lt k j then none else if o.lt j k then find k m else some w

  -- `m.insert(...).second`: whether a new entry was made.
  abbrev pub inserted : K → Map K V → Bool
  inserted k m = elim (find k m) [ none ↦ true | some _ ↦ false ]

  -- `m.count(k)`
  abbrev pub count : K → Map K V → ℕ
  count k m = elim (find k m) [ none ↦ 0 | some _ ↦ 1 ]

  -- The entry under `k` changed in place, through an iterator or a reference.
  unfoldable pub update : K → (V → V) → Map K V → Map K V
  update k f [] = []
  update k f ((j, w) ∷ m) =
      if o.lt k j then (j, w) ∷ m else if o.lt j k then (j, w) ∷ update k f m else (j, f w) ∷ m

abbrev pub size {ℓ κ} : {K : Type ℓ} {V : Type κ} → Map K V → ℕ
size m = length m

abbrev pub keys {ℓ κ} : {K : Type ℓ} {V : Type κ} → Map K V → List K
keys = map (λ e. e.0)
