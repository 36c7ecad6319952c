-- ===== src/Pmda/Init.antt =====
-- pmda::initialize_pmda with count_metrics and allocate_pmda_indom (include/pcp-cpp/pmda.hpp).
use pcp_pmda_cpp.Base.{
  ℕ, ◌+◌, ◌%◌, ◌^◌, ltb, ◌==◌, Text, List, [], ◌∷◌, ◌++◌, map, length, set, replicate, Option, none,
  some, Bool, if◌then◌else◌, or_else,
}
use pcp_pmda_cpp.Map.{Map, insert, find, inserted, size, nat_ord}
use pcp_pmda_cpp.Pcp.{Pmapi}
use pcp_pmda_cpp.Exception.{ok}
use pcp_pmda_cpp.InstanceDomain.{InstanceInfo, InstanceDomain, set_pm_instance_domain}
use pcp_pmda_cpp.Metrics.Defs.{MetricDescription, MetricCluster, MetricsDescription, to_pm_desc}
use pcp_pmda_cpp.Pmda.State.{Pmda, Method, Agent, ◌>>=◌}
use pcp_pmda_cpp.Pmda.Fetch.{PmdaMetric}

-- pmdaInstid and pmdaIndom, whose identifier has 32 bits; `it_numinst` is the length of `it_set`.
pub record PmdaInstid : Type 0 where
  pub i_inst : ℕ
  pub i_name : Text

pub record PmdaIndom : Type 0 where
  pub it_indom : ℕ
  pub it_numinst : ℕ
  pub it_set : List PmdaInstid

instid : ℕ × InstanceInfo → PmdaInstid
instid (id, info) = record { i_inst = id; i_name = info.instance_name }

unfoldable pub allocate_pmda_indom : InstanceDomain → PmdaIndom
unfolding instid
allocate_pmda_indom domain = record {
  it_indom = domain.domain_id % 2 ^ 32;
  it_numinst = size domain.instances;
  it_set = map instid domain.instances;
}

-- The number of metrics so far, and the std::set of pointers to instance domains.
abbrev pub Counts : Type 0
Counts = ℕ × Map ℕ (Unit {0})

abbrev pub count_domain : Option ℕ → Map ℕ (Unit {0}) → Map ℕ (Unit {0})
count_domain none domains = domains
count_domain (some p) domains = insert p tt domains

unfoldable pub count_cluster : Map ℕ MetricDescription → Counts → Counts
count_cluster [] c = c
count_cluster ((_, d) ∷ metrics) (n, domains) =
    count_cluster metrics (n + 1, count_domain d.domain domains)

unfoldable pub count_clusters : Map ℕ MetricCluster → Counts → Counts
count_clusters [] c = c
count_clusters ((_, k) ∷ clusters) c = count_clusters clusters (count_cluster k.metrics c)

-- The number of metrics, and of the instance domains that they point to.
unfoldable pub count_metrics : MetricsDescription → ℕ × ℕ
count_metrics m = let (n, domains) = count_clusters m.clusters (0, []) in (n, size domains)

-- The local variables of initialize_pmda. An entry of a table is `none` until it is written.
pub record Tables : Type 0 where
  pub indom_table : List (Option PmdaIndom)
  pub metric_table : List (Option PmdaMetric)
  pub instance_domain_ids : Map ℕ ℕ
  pub instance_domains : List ℕ
  pub metric_index : ℕ

-- `assert`: the program ends where the test fails.
abbrev pub assert : Bool → Option (Unit {0})
assert b = if b then some tt else none

infixl 5 ◌>>=ᵒ◌
abbrev pub ◌>>=ᵒ◌ : {A B : Type 0} → Option A → (A → Option B) → Option B
none >>=ᵒ f = none
some a >>=ᵒ f = f a

module _ (api : Pmapi) (heap : ℕ → InstanceDomain) (metric_count indom_count : ℕ) where
  -- The instance domain of a metric: its identifier, made where the pointer is new.
  unfoldable pub init_indom : Option ℕ → Tables → Option (ℕ × Tables)
  init_indom none t = some (api.indom_null, t)
  init_indom (some p) t =
      let indom = or_else (find p t.instance_domain_ids) (size t.instance_domain_ids) in
      let ids = insert p (size t.instance_domain_ids) t.instance_domain_ids in
      assert (ltb indom indom_count) >>=ᵒ λ _.
      if inserted p t.instance_domain_ids
      then (let domains = t.instance_domains ++ p ∷ [] in
          assert (size ids == length domains) >>=ᵒ λ _. some (
            indom,
            record t {
              indom_table = set t.indom_table indom (some (allocate_pmda_indom (heap p)));
              instance_domain_ids = ids;
              instance_domains = domains;
            },
          ))
      else some (indom, record t { instance_domain_ids = ids })

  -- The body of the inner loop.
  unfoldable pub init_metric : ℕ → ℕ → MetricDescription → Tables → Option Tables
  init_metric cluster_id item d t = assert (ltb t.metric_index metric_count) >>=ᵒ λ _.
      init_indom d.domain t >>=ᵒ λ r. some (record r.1 {
        metric_table = set r.1.metric_table r.1.metric_index (
            some (record {
              m_user = d.opaque;
              m_desc = record (to_pm_desc api d) {
                pmid = api.pmda_pmid cluster_id item;
                indom = r.0;
              };
            }));
        metric_index = r.1.metric_index + 1;
      })

  unfoldable pub init_cluster : ℕ → Map ℕ MetricDescription → Tables → Option Tables
  init_cluster cluster_id [] t = some t
  init_cluster cluster_id ((item, d) ∷ metrics) t =
      init_metric cluster_id item d t >>=ᵒ init_cluster cluster_id metrics

  unfoldable pub init_clusters : Map ℕ MetricCluster → Tables → Option Tables
  init_clusters [] t = some t
  init_clusters ((_, k) ∷ clusters) t =
      init_cluster k.cluster_id k.metrics t >>=ᵒ init_clusters clusters

-- The loops over the supported metrics, on tables of the sizes that count_metrics gives.
unfoldable pub build_tables : Pmapi → (ℕ → InstanceDomain) → MetricsDescription → Option Tables
build_tables api heap m =
    let (metric_count, indom_count) = count_metrics m in
    init_clusters api heap metric_count indom_count m.clusters (record {
      indom_table = replicate indom_count none;
      metric_table = replicate metric_count none;
      instance_domain_ids = [];
      instance_domains = [];
      metric_index = 0;
    })
    >>=ᵒ λ t. assert (size t.instance_domain_ids == indom_count) >>=ᵒ λ _.
        assert (length t.instance_domains == indom_count) >>=ᵒ λ _.
        assert (t.metric_index == metric_count) >>=ᵒ λ _. some t

-- An object changed through a pointer to it.
abbrev pub at_pointer :
    ℕ → (InstanceDomain → InstanceDomain) → (ℕ → InstanceDomain) → ℕ → InstanceDomain
at_pointer p f heap q = if q == p then f (heap q) else heap q

module _ {ℓ} {S : Type ℓ} where
  -- The body of the loop after pmdaInit, for a domain and the identifier that it has been given. The
  -- keys of the member `instance_domains` have 32 bits, the agent's own identifiers 64.
  unfoldable pub record_indom : ℕ → ℕ → Pmda S → Pmda S
  record_indom p it_indom s =
      let heap' = at_pointer p (set_pm_instance_domain it_indom) s.heap in
      record s {
        heap = heap';
        instance_domains =
            insert (heap' p).pm_instance_domain p
              (insert ((heap' p).domain_id % 2 ^ 32) p s.instance_domains);
      }

  -- `it_indom` gives the identifiers in the table after pmdaInit, from the index on.
  unfoldable pub record_indoms : (ℕ → ℕ) → ℕ → List ℕ → Pmda S → Pmda S
  record_indoms it_indom index [] s = s
  record_indoms it_indom index (p ∷ ps) s =
      record_indoms it_indom (index + 1) ps (record_indom p (it_indom index) s)

  after_init : (Tables → ℕ → ℕ) → Option Tables → Pmda S → Option Tables × Pmda S
  after_init pmda_init none s = (none, s)
  after_init pmda_init (some t) s = (some t, record_indoms (pmda_init t) 0 t.instance_domains s)

  -- `pmda_init` is pmdaInit: the identifier that it leaves in each entry of the instance-domain
  -- table. The result is the tables that it is given; `none` is a failed assertion. The call of
  -- set_callbacks before pmdaInit writes to the interface alone: Interface.initialize_interface is
  -- the whole, with the interface.
  unfoldable pub initialize_pmda {κ} :
      {A : Type κ} → Pmapi → Agent S A → (Tables → ℕ → ℕ) → Method S (Option Tables)
  unfolding after_init
  initialize_pmda api agent pmda_init = agent.get_supported_metrics >>= λ m s.
      let s' = record s { supported_metrics = m } in
      let (t, s'') = after_init pmda_init (build_tables api s'.heap m) s' in (ok t, s'')
