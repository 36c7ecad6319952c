-- ===== src/Map/Lookup.antt =====
-- What the operations of a map do to its lookups; no order of the entries is assumed.
use pcp_pmda_cpp.Base.{◌+◌, ◌≡◌, refl, ◌∙◌, [], ◌∷◌, some, arith, if◌then◌else◌, or_else, ◌≢◌}
use mathlib.Core.Option
use pcp_pmda_cpp.Map.Order.{Ord}
use pcp_pmda_cpp.Map.Defs.{Map, insert, find, inserted, update, size}

module _ {ℓ κ} {K : Type ℓ} {V : Type κ} ⦃o : Ord K⦄ where
  -- The entry under `k` is the old one, or else the new one; every other entry is as before.
  pub find-insert :
      (k j : K) (v : V) (m : Map K V)
      → find j (insert k v m) ≡ (
          if o.lt k j then find j m else if o.lt j k then find j m else some (or_else (find k m) v))
  unfolding find insert
  find-insert k j v [] = ground arith
  find-insert k j v ((i, w) ∷ m) = ground (
    arith,
    find-insert k j v m,
    o.lt_trans k i j,
    o.lt_trans j k i,
    o.lt_trans j i k,
    o.lt_trans i j k,
    o.lt_trans k j i,
    o.lt_trans i k j,
    o.lt_irrefl i,
    o.lt_irrefl j,
    o.lt_irrefl k,
    o.eq_of_not_lt k j,
    o.eq_of_not_lt i j,
    o.eq_of_not_lt i k,
  )

  pub find-insert_self :
      (k : K) (v : V) (m : Map K V) → find k (insert k v m) ≡ some (or_else (find k m) v)
  find-insert_self k v m = find-insert k k v m ∙ (ground (arith, o.lt_irrefl k))

  pub find-insert_ne : (k j : K) (v : V) (m : Map K V) → k ≢ j → find j (insert k v m) ≡ find j m
  find-insert_ne k j v m h = ground (arith, find-insert k j v m, o.eq_of_not_lt k j)

  pub find-update :
      (k j : K) (f : V → V) (m : Map K V)
      → find j (update k f m)
        ≡ (if o.lt k j then find j m else if o.lt j k then find j m else Option.map f (find j m))
  unfolding find update
  find-update k j f [] = ground arith
  find-update k j f ((i, w) ∷ m) = ground (
    arith,
    find-update k j f m,
    o.lt_trans k i j,
    o.lt_trans j k i,
    o.lt_trans j i k,
    o.lt_trans i j k,
    o.lt_trans k j i,
    o.lt_trans i k j,
    o.lt_irrefl i,
    o.lt_irrefl j,
    o.lt_irrefl k,
    o.eq_of_not_lt k j,
    o.eq_of_not_lt i j,
    o.eq_of_not_lt i k,
  )

  pub find-update_self :
      (k : K) (f : V → V) (m : Map K V) → find k (update k f m) ≡ Option.map f (find k m)
  find-update_self k f m = find-update k k f m ∙ (ground (arith, o.lt_irrefl k))

  pub find-update_ne :
      (k j : K) (f : V → V) (m : Map K V) → k ≢ j → find j (update k f m) ≡ find j m
  find-update_ne k j f m h = ground (arith, find-update k j f m, o.eq_of_not_lt k j)

  -- A map grows by one exactly when the key is new.
  pub size-insert :
      (k : K) (v : V) (m : Map K V)
      → size (insert k v m) ≡ (if inserted k m then size m + 1 else size m)
  unfolding insert find
  size-insert k v [] = omega arith
  size-insert k v ((j, w) ∷ m) = ground (arith, size-insert k v m)

  pub size-update : (k : K) (f : V → V) (m : Map K V) → size (update k f m) ≡ size m
  unfolding update
  size-update k f [] = refl
  size-update k f ((j, w) ∷ m) = ground (arith, size-update k f m)
