-- ===== src/Pmda/Registered.antt =====
-- The instance domains after initialize_pmda (include/pcp-cpp/pmda.hpp).
use native.Mathlib.Nat.{zero-add}
use pcp_pmda_cpp.Base.{
  ℕ, ◌+◌, ◌%◌, ◌^◌, ◌≡◌, refl, subst, ◌∙◌, ◌==◌, List, [], ◌∷◌, ◌++◌, Option, none, some, arith,
  true, is_some, if◌then◌else◌, Bool-cases, ==_iff, Option-cases, inl, inr,
}
use pcp_pmda_cpp.Map.{find, insert, nat_ord}
use pcp_pmda_cpp.Map.Lookup.{find-insert}
use pcp_pmda_cpp.Pcp.{Pmapi}
use pcp_pmda_cpp.Exception.{ok}
use pcp_pmda_cpp.InstanceDomain.{InstanceDomain, set_pm_instance_domain}
use pcp_pmda_cpp.Metrics.Defs.{MetricsDescription}
use pcp_pmda_cpp.Pmda.State.{Pmda, Agent}
use pcp_pmda_cpp.Pmda.Rows.{Row, rows, domains_from, with_domain, position?, position?-append}
use pcp_pmda_cpp.Pmda.Init.{
  Tables, at_pointer, record_indom, record_indoms, initialize_pmda, build_tables,
}
use pcp_pmda_cpp.Pmda.InitTables.{domains_of, build_tables-total}

-- No pointer occurs twice.
abbrev IsDistinct : List ℕ → Type 0
IsDistinct [] = Unit {0}
IsDistinct (p ∷ ds) = (position? p ds ≡ none) × IsDistinct ds

append-IsDistinct :
    (p : ℕ) (ds : List ℕ) → position? p ds ≡ none → IsDistinct ds → IsDistinct (ds ++ p ∷ [])
append-IsDistinct p [] e h = (refl, tt)
append-IsDistinct p (d ∷ ds) e h =
    (ground (arith, position?-append d p ds), append-IsDistinct p ds (ground arith) h.1)

with_domain-IsDistinct :
    (ds : List ℕ) (o : Option ℕ) → IsDistinct ds → IsDistinct (with_domain ds o)
with_domain-IsDistinct ds none h = h
with_domain-IsDistinct ds (some p) h = ground (arith, append-IsDistinct p ds)

domains_from-IsDistinct :
    (ds : List ℕ) (rs : List Row) → IsDistinct ds → IsDistinct (domains_from ds rs)
domains_from-IsDistinct ds [] h = h
domains_from-IsDistinct ds (r ∷ rs) h =
    domains_from-IsDistinct (with_domain ds r.description.domain) rs
      (with_domain-IsDistinct ds r.description.domain h)

-- The object behind each pointer of a list gets the identifier of its place, from `index` on.
abbrev pub recorded : (ℕ → ℕ) → ℕ → Option ℕ → InstanceDomain → InstanceDomain
recorded it_indom index none d = d
recorded it_indom index (some j) d = record d { pm_instance_domain = it_indom (index + j) }

pub recorded-instances :
    (it_indom : ℕ → ℕ) (index : ℕ) (o : Option ℕ) (d : InstanceDomain)
    → (recorded it_indom index o d).instances ≡ d.instances
recorded-instances it_indom index none d = refl
recorded-instances it_indom index (some j) d = refl

record_indom-heap {ℓ} :
    {S : Type ℓ} (d i : ℕ) (s : Pmda S) (p : ℕ)
    → (record_indom d i s).heap p
      ≡ (if p == d then record (s.heap p) { pm_instance_domain = i } else s.heap p)
unfolding record_indom set_pm_instance_domain
record_indom-heap d i s p = refl

record_indom-domain_id {ℓ} :
    {S : Type ℓ} (d i : ℕ) (s : Pmda S) (p : ℕ)
    → ((record_indom d i s).heap p).domain_id ≡ (s.heap p).domain_id
unfolding record_indom set_pm_instance_domain
record_indom-domain_id d i s p = ground arith

record_indom-keeps {ℓ} :
    {S : Type ℓ} (d i : ℕ) (s : Pmda S) (k : ℕ)
    → is_some (find k s.instance_domains) ≡ true
    → is_some (find k (record_indom d i s).instance_domains) ≡ true
unfolding record_indom
record_indom-keeps d i s k h =
    let heap' = at_pointer d (set_pm_instance_domain i) s.heap in
    let m = insert ((heap' d).domain_id % 2 ^ 32) d s.instance_domains in
    ground (
      arith,
      find-insert ((heap' d).domain_id % 2 ^ 32) k d s.instance_domains,
      find-insert (heap' d).pm_instance_domain k d m,
    )

record_indom-registers {ℓ} :
    {S : Type ℓ} (d i : ℕ) (s : Pmda S)
    → (is_some (find ((s.heap d).domain_id % 2 ^ 32) (record_indom d i s).instance_domains) ≡ true)
      × (is_some (find i (record_indom d i s).instance_domains) ≡ true)
unfolding record_indom set_pm_instance_domain
record_indom-registers d i s =
    let m = insert ((s.heap d).domain_id % 2 ^ 32) d s.instance_domains in
    ground (
      arith,
      find-insert ((s.heap d).domain_id % 2 ^ 32) ((s.heap d).domain_id % 2 ^ 32) d
          s.instance_domains,
      find-insert i ((s.heap d).domain_id % 2 ^ 32) d m,
      find-insert i i d m,
    )

module _ {ℓ} {S : Type ℓ} (it_indom : ℕ → ℕ) where
  record_indoms-heap :
      (index : ℕ) (ds : List ℕ) (s : Pmda S) (p : ℕ)
      → IsDistinct ds
      → (record_indoms it_indom index ds s).heap p
        ≡ recorded it_indom index (position? p ds) (s.heap p)
  unfolding record_indoms
  record_indoms-heap index [] s p h = refl
  record_indoms-heap index (d ∷ ds) s p h =
      record_indoms-heap (index + 1) ds (record_indom d (it_indom index) s) p h.1
      ∙ elim (Bool-cases (p == d)) [
        | inl same ↦
            let e : position? p ds ≡ none = rw ((==_iff p d).0 same) h.0 in
            rw (e, same, record_indom-heap d (it_indom index) s p) (ground arith)
        | inr other ↦ elim (Option-cases (position? p ds)) [
          | inl e ↦ rw (e, other, record_indom-heap d (it_indom index) s p) (ground arith)
          | inr (j, e) ↦ rw (e, other, record_indom-heap d (it_indom index) s p) (ground arith)
        ]
      ]

  -- What has been registered stays registered.
  record_indoms-keeps :
      (index : ℕ) (ds : List ℕ) (s : Pmda S) (k : ℕ)
      → is_some (find k s.instance_domains) ≡ true
      → is_some (find k (record_indoms it_indom index ds s).instance_domains) ≡ true
  unfolding record_indoms
  record_indoms-keeps index [] s k h = h
  record_indoms-keeps index (d ∷ ds) s k h =
      record_indoms-keeps (index + 1) ds (record_indom d (it_indom index) s) k
        (record_indom-keeps d (it_indom index) s k h)

  record_indoms-supported :
      (index : ℕ) (ds : List ℕ) (s : Pmda S)
      → (record_indoms it_indom index ds s).supported_metrics ≡ s.supported_metrics
  unfolding record_indoms record_indom
  record_indoms-supported index [] s = refl
  record_indoms-supported index (d ∷ ds) s =
      record_indoms-supported (index + 1) ds (record_indom d (it_indom index) s)

  record_indoms-registers :
      (index : ℕ) (ds : List ℕ) (s : Pmda S) (p j : ℕ)
      → IsDistinct ds
      → position? p ds ≡ some j
      → (is_some (
            find
              ((s.heap p).domain_id % 2 ^ 32)
              (record_indoms it_indom index ds s).instance_domains)
          ≡ true)
        × (is_some
              (find (it_indom (index + j)) (record_indoms it_indom index ds s).instance_domains)
            ≡ true)
  unfolding record_indoms
  record_indoms-registers index [] s p j h e = cc
  record_indoms-registers index (d ∷ ds) s p j h e = elim (Bool-cases (p == d)) [
    | inl same ↦
        let now = record_indom-registers d (it_indom index) s in
        let here : p ≡ d = (==_iff p d).0 same in
        let first : j ≡ 0 = ground arith in
        let k : index + j ≡ index = omega arith in
        rw (here, k)
          (
            record_indoms-keeps (index + 1) ds (record_indom d (it_indom index) s) _ now.0,
            record_indoms-keeps (index + 1) ds (record_indom d (it_indom index) s) _ now.1,
          )
    | inr other ↦ elim (Option-cases (position? p ds)) [
      | inl none_there ↦ ground arith
      | inr (i, there) ↦
          let k : index + j ≡ index + 1 + i = ground arith in
          rw (k, ← record_indom-domain_id d (it_indom index) s p)
            (record_indoms-registers (index + 1) ds (record_indom d (it_indom index) s) p i h.1
              there)
    ]
  ]

pub initialize_pmda-ok {ℓ κ} :
    {S : Type ℓ} {A : Type κ} (api : Pmapi) (agent : Agent S A) (pmda_init : Tables → ℕ → ℕ)
    (s s' : Pmda S) (m : MetricsDescription) (t : Tables)
    → agent.get_supported_metrics s ≡ (ok m, s')
    → build_tables api s'.heap m ≡ some t
    → initialize_pmda api agent pmda_init s ≡ (
      ok (some t),
      record_indoms (pmda_init t) 0 t.instance_domains (record s' { supported_metrics = m }),
    )
unfolding initialize_pmda
initialize_pmda-ok api agent pmda_init s s' m t e built = ground arith

-- Where the agent describes its metrics without an exception, initialize_pmda ends with those as
-- the supported metrics and no assertion failed, whatever identifiers pmdaInit leaves. It gives
-- pmdaInit the tables of `build_tables`. Afterwards the object of each instance domain that a
-- metric names carries the identifier that pmdaInit left in its entry and is otherwise as it was,
-- every other object is as it was, and each such domain's two identifiers are both
-- registered, the agent's own modulo 2 ^ 32.
pub initialize_pmda-registers {ℓ κ} :
    {S : Type ℓ} {A : Type κ} (api : Pmapi) (agent : Agent S A) (pmda_init : Tables → ℕ → ℕ)
    (s s' : Pmda S) (m : MetricsDescription)
    → agent.get_supported_metrics s ≡ (ok m, s')
    → (t : Tables) × (s'' : Pmda S) × (initialize_pmda api agent pmda_init s ≡ (ok (some t), s''))
      × (build_tables api s'.heap m ≡ some t)
      × (s''.supported_metrics ≡ m)
      × ((p : ℕ) → s''.heap p ≡ recorded (pmda_init t) 0 (position? p (domains_of m)) (s'.heap p))
      × ((p j : ℕ)
          → position? p (domains_of m) ≡ some j
          → (is_some (find ((s'.heap p).domain_id % 2 ^ 32) s''.instance_domains) ≡ true)
            × (is_some (find (pmda_init t j) s''.instance_domains) ≡ true))
initialize_pmda-registers {S} api agent pmda_init s s' m e =
    let ready : Pmda S = record s' { supported_metrics = m } in
    let (t, built, ds, _, _) = build_tables-total api s'.heap m in
    let distinct = domains_from-IsDistinct [] (rows m.clusters) tt in
    (
      t,
      record_indoms (pmda_init t) 0 t.instance_domains ready,
      initialize_pmda-ok api agent pmda_init s s' m t e built,
      built,
      record_indoms-supported (pmda_init t) 0 t.instance_domains ready,
      (λ p. rw ds (record_indoms-heap (pmda_init t) 0 (domains_of m) ready p distinct)),
      (λ p j h. rw ds (
          subst
            (λ k.
              (is_some (
                  find ((s'.heap p).domain_id % 2 ^ 32)
                    (record_indoms (pmda_init t) 0 (domains_of m) ready).instance_domains)
                ≡ true)
              × (is_some (
                    find (pmda_init t k)
                      (record_indoms (pmda_init t) 0 (domains_of m) ready).instance_domains)
                  ≡ true))
            (zero-add j)
            (record_indoms-registers (pmda_init t) 0 (domains_of m) ready p j distinct h))),
    )
