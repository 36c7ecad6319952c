-- ===== src/Map/Sorted.antt =====
-- The order of the entries, and what it gives.
use pcp_pmda_cpp.Base.{◌≡◌, refl, true, [], ◌∷◌, none, some, arith, All, Bool-cases, inl, inr}
use pcp_pmda_cpp.Map.Order.{Ord}
use pcp_pmda_cpp.Map.Defs.{Map, insert, find, update}

module _ {ℓ κ} {K : Type ℓ} {V : Type κ} ⦃o : Ord K⦄ where
  -- Every key of `m` is above `k`.
  abbrev pub Above : K → Map K V → Type 0
  Above k [] = Unit {0}
  Above k ((j, _) ∷ m) = (o.lt k j ≡ true) × Above k m

  -- The keys ascend strictly.
  abbrev pub IsSorted : Map K V → Type 0
  IsSorted [] = Unit {0}
  IsSorted ((k, _) ∷ m) = Above k m × IsSorted m

  pub Above-trans : (j k : K) (m : Map K V) → o.lt j k ≡ true → Above k m → Above j m
  Above-trans j k [] h a = tt
  Above-trans j k ((i, w) ∷ m) h a = (o.lt_trans j k i h a.0, Above-trans j k m h a.1)

  pub insert-Above :
      (j k : K) (v : V) (m : Map K V) → o.lt j k ≡ true → Above j m → Above j (insert k v m)
  unfolding insert
  insert-Above j k v [] h a = (h, tt)
  insert-Above j k v ((i, w) ∷ m) h a = ground (arith, insert-Above j k v m h a.1)

  pub insert-IsSorted : (k : K) (v : V) (m : Map K V) → IsSorted m → IsSorted (insert k v m)
  unfolding insert
  insert-IsSorted k v [] s = (tt, tt)
  insert-IsSorted k v ((j, w) ∷ m) s =
      ground (arith, insert-IsSorted k v m s.1, insert-Above j k v m, Above-trans k j m)

  pub update-Above : (j k : K) (f : V → V) (m : Map K V) → Above j m → Above j (update k f m)
  unfolding update
  update-Above j k f [] a = tt
  update-Above j k f ((i, w) ∷ m) a = ground (arith, update-Above j k f m a.1)

  pub update-IsSorted : (k : K) (f : V → V) (m : Map K V) → IsSorted m → IsSorted (update k f m)
  unfolding update
  update-IsSorted k f [] s = tt
  update-IsSorted k f ((j, w) ∷ m) s =
      ground (arith, update-IsSorted k f m s.1, update-Above j k f m s.0)

  pub find-Above : (k : K) (m : Map K V) → Above k m → find k m ≡ none
  unfolding find
  find-Above k [] a = refl
  find-Above k ((j, w) ∷ m) a = ground arith

  -- In a sorted map every entry that the iterators visit is the one that `find` gives.
  pub find-All : (m : Map K V) → IsSorted m → All (λ e. find e.0 m ≡ some e.1) m
  unfolding find
  find-All [] s = tt
  find-All ((k, v) ∷ m) s = (ground (arith, o.lt_irrefl k), widen m s.0 (find-All m s.1))
    where
      keep :
          (e : K × V) → o.lt k e.0 ≡ true → find e.0 m ≡ some e.1 → find e.0 ((k, v) ∷ m) ≡ some e.1
      keep e h p = ground (arith, o.lt_irrefl k, o.lt_trans k e.0 k)

      widen :
          (l : Map K V)
          → Above k l
          → All (λ e. find e.0 m ≡ some e.1) l
          → All (λ e. find e.0 ((k, v) ∷ m) ≡ some e.1) l
      widen [] a h = tt
      widen (e ∷ l) a h = (keep e a.0 h.0, widen l a.1 h.1)

  -- `insert` puts no entry into the map but the new one.
  pub insert-All {μ} :
      (P : K × V → Type μ) (k : K) (v : V) (m : Map K V) → P (k, v) → All P m → All P (insert k v m)
  unfolding insert
  insert-All P k v [] p h = (p, tt)
  insert-All P k v ((j, w) ∷ m) p h = elim (Bool-cases (o.lt k j)) [
    | inl e ↦ rw e (p, h)
    | inr e ↦ rw e (elim (Bool-cases (o.lt j k)) [
      | inl d ↦ rw d (h.0, insert-All P k v m p h.1)
      | inr d ↦ rw d h
    ])
  ]
