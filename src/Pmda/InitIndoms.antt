-- ===== src/Pmda/InitIndoms.antt =====
-- The tables while initialize_pmda fills them, and what one metric's instance domain changes
-- (include/pcp-cpp/pmda.hpp).
use pcp_pmda_cpp.Base.{
  ℕ, suc, ◌+◌, ◌-◌, ◌≤◌, ◌<◌, ◌≡◌, refl, ap, List, [], ◌∷◌, ◌++◌, map, length, length-append,
  Option, none, some, arith, Option-cases, inl, inr, set, replicate, set-filled,
}
use pcp_pmda_cpp.Map.{insert, find, size, nat_ord}
use pcp_pmda_cpp.Map.Lookup.{find-insert, size-insert}
use pcp_pmda_cpp.Pcp.{Pmapi}
use pcp_pmda_cpp.InstanceDomain.{InstanceDomain}
use pcp_pmda_cpp.Pmda.Fetch.{PmdaMetric}
use pcp_pmda_cpp.Pmda.Rows.{
  Row, position?, with_domain, indom_of, metric_entry, position?-append, position?-lt,
}
use pcp_pmda_cpp.Pmda.Init.{Tables, allocate_pmda_indom, init_indom}

module _ (api : Pmapi) (heap : ℕ → InstanceDomain) (metric_count indom_count : ℕ) where
  -- The part of the tables that is about instance domains, when those of `ds` have been met.
  pub record HasIndoms (ds : List ℕ) (t : Tables) : Type 0 where
    pub ids : (p : ℕ) → find p t.instance_domain_ids ≡ position? p ds
    pub ids_size : size t.instance_domain_ids ≡ length ds
    pub domains : t.instance_domains ≡ ds
    pub room : ℕ
    pub room_left : indom_count ≡ length ds + room
    pub indoms :
        t.indom_table ≡ map (λ p. some (allocate_pmda_indom (heap p))) ds ++ replicate room none

  -- The part about metrics, when the rows of `done` have been met and `fin` are all domains.
  pub record HasMetrics (fin : List ℕ) (done : List Row) (t : Tables) : Type 0 where
    pub index : t.metric_index ≡ length done
    pub room : ℕ
    pub room_left : metric_count ≡ length done + room
    pub metrics :
        t.metric_table ≡ map (λ r. some (metric_entry api fin r)) done ++ replicate room none

  abbrev new_indom : List ℕ → ℕ → Tables → Tables
  new_indom ds p t = record t {
    indom_table =
        set t.indom_table (size t.instance_domain_ids) (some (allocate_pmda_indom (heap p)));
    instance_domain_ids = insert p (size t.instance_domain_ids) t.instance_domain_ids;
    instance_domains = t.instance_domains ++ p ∷ [];
  }

  -- A pointer that has not been met gets the next identifier and the next entry.
  new_indom-HasIndoms :
      (ds : List ℕ) (p : ℕ) (t : Tables) (h : HasIndoms ds t) (k : ℕ)
      → h.room ≡ suc k
      → position? p ds ≡ none
      → HasIndoms (ds ++ p ∷ []) (new_indom ds p t)
  new_indom-HasIndoms ds p t h k e new = record {
    ids = λ q. ground (
      arith,
      find-insert p q (size t.instance_domain_ids) t.instance_domain_ids,
      h.ids q,
      h.ids p,
      position?-append q p ds,
      h.ids_size,
    );
    ids_size = ground (
      arith,
      size-insert p (size t.instance_domain_ids) t.instance_domain_ids,
      h.ids p,
      h.ids_size,
      length-append ds (p ∷ []),
    );
    domains = ap (λ l. l ++ p ∷ []) h.domains;
    room = k;
    room_left = omega (arith, h.room_left, e, length-append ds (p ∷ []));
    indoms =
        rw (h.indoms, e, h.ids_size)
          (set-filled (λ q. some (allocate_pmda_indom (heap q))) ds p none (replicate k none));
  }

  old_indom-HasIndoms :
      (ds : List ℕ) (p i n : ℕ) (t : Tables)
      → HasIndoms ds t
      → position? p ds ≡ some i
      → HasIndoms ds (record t { instance_domain_ids = insert p n t.instance_domain_ids })
  old_indom-HasIndoms ds p i n t h old = record {
    ids = λ q. ground (arith, find-insert p q n t.instance_domain_ids, h.ids q, h.ids p);
    ids_size = ground (arith, size-insert p n t.instance_domain_ids, h.ids p, h.ids_size);
    domains = h.domains;
    room = h.room;
    room_left = h.room_left;
    indoms = h.indoms;
  }

  init_indom-new :
      (ds : List ℕ) (p : ℕ) (t : Tables)
      → HasIndoms ds t
      → position? p ds ≡ none
      → length ds < indom_count
      → init_indom api heap metric_count indom_count (some p) t ≡ some (length ds, new_indom ds p t)
  unfolding init_indom
  init_indom-new ds p t h new fits = ground (
    arith,
    h.ids p,
    h.ids_size,
    h.domains,
    length-append ds (p ∷ []),
    size-insert p (size t.instance_domain_ids) t.instance_domain_ids,
  )

  init_indom-old :
      (ds : List ℕ) (p i : ℕ) (t : Tables)
      → HasIndoms ds t
      → position? p ds ≡ some i
      → i < indom_count
      → init_indom api heap metric_count indom_count (some p) t
        ≡ some (
          i,
          record t {
            instance_domain_ids = insert p (size t.instance_domain_ids) t.instance_domain_ids;
          },
        )
  unfolding init_indom
  init_indom-old ds p i t h old fits = ground (arith, h.ids p)

  -- What init_indom gives: the identifier and the tables after it.
  pub init_indom-HasIndoms :
      (ds : List ℕ) (o : Option ℕ) (t : Tables)
      → HasIndoms ds t
      → length (with_domain ds o) ≤ indom_count
      → (t' : Tables) × (init_indom api heap metric_count indom_count o t
          ≡ some (indom_of api ds o, t'))
        × HasIndoms (with_domain ds o) t'
        × (t'.metric_table ≡ t.metric_table)
        × (t'.metric_index ≡ t.metric_index)
  init_indom-HasIndoms ds none t h fits = (t, unfold init_indom in refl, h, refl, refl)
  init_indom-HasIndoms ds (some p) t h fits = elim (Option-cases (position? p ds)) [
    | inl new ↦
        let room : length ds < indom_count = ground (arith, length-append ds (p ∷ [])) in
        let k : h.room ≡ suc (h.room - 1) = omega (arith, h.room_left) in
        (
          new_indom ds p t,
          rw new (init_indom-new ds p t h new room),
          rw new (new_indom-HasIndoms ds p t h (h.room - 1) k new),
          refl,
          refl,
        )
    | inr (i, old) ↦
        let room : i < indom_count = ground (arith, position?-lt p ds old) in
        (
          record t {
            instance_domain_ids = insert p (size t.instance_domain_ids) t.instance_domain_ids;
          },
          rw old (init_indom-old ds p i t h old room),
          rw old (old_indom-HasIndoms ds p i (size t.instance_domain_ids) t h old),
          refl,
          refl,
        )
  ]

  abbrev pub write_metric : PmdaMetric → Tables → Tables
  write_metric m t = record t {
    metric_table = set t.metric_table t.metric_index (some m);
    metric_index = t.metric_index + 1;
  }
