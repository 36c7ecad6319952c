-- ===== src/Pmda/InitTables.antt =====
-- What initialize_pmda hands to pmdaInit (include/pcp-cpp/pmda.hpp).
use pcp_pmda_cpp.Base.{
  ℕ, ◌≡◌, refl, ap, ◌∙◌, List, [], map, length, none, some, arith, append-nil, replicate,
}
use pcp_pmda_cpp.Map.{find, nat_ord}
use pcp_pmda_cpp.Pcp.{Pmapi}
use pcp_pmda_cpp.InstanceDomain.{InstanceDomain}
use pcp_pmda_cpp.Metrics.Defs.{MetricsDescription}
use pcp_pmda_cpp.Pmda.Rows.{rows, domains_from, metric_entry}
use pcp_pmda_cpp.Pmda.Init.{Tables, allocate_pmda_indom, init_clusters, build_tables}
use pcp_pmda_cpp.Pmda.Counts.{count_metrics-rows}
use pcp_pmda_cpp.Pmda.InitIndoms.{HasIndoms, HasMetrics}
use pcp_pmda_cpp.Pmda.InitLaws.{init_clusters-rows, init_rows-Has}

-- The distinct instance domains of the metrics, in the order in which the loops meet them.
abbrev pub domains_of : MetricsDescription → List ℕ
domains_of m = domains_from [] (rows m.clusters)

-- The tables before the loops.
abbrev start : MetricsDescription → Tables
start m = record {
  indom_table = replicate (length (domains_of m)) none;
  metric_table = replicate (length (rows m.clusters)) none;
  instance_domain_ids = [];
  instance_domains = [];
  metric_index = 0;
}

module _ (api : Pmapi) (heap : ℕ → InstanceDomain) (m : MetricsDescription) where
  start-HasIndoms :
      HasIndoms api heap (length (rows m.clusters)) (length (domains_of m)) [] (start m)
  unfolding find
  start-HasIndoms = record {
    ids = λ p. refl;
    ids_size = refl;
    domains = refl;
    room = length (domains_of m);
    room_left = omega arith;
    indoms = refl;
  }

  start-HasMetrics :
      HasMetrics api heap
        (length (rows m.clusters))
        (length (domains_of m))
        (domains_of m)
        []
        (start m)
  start-HasMetrics = record {
    index = refl;
    room = length (rows m.clusters);
    room_left = omega arith;
    metrics = refl;
  }

  -- The assertions after the loops.
  build_tables-end :
      (t : Tables)
      → init_clusters api heap
          (length (rows m.clusters))
          (length (domains_of m))
          m.clusters
          (start m)
        ≡ some t
      → length t.instance_domain_ids ≡ length (domains_of m)
      → length t.instance_domains ≡ length (domains_of m)
      → t.metric_index ≡ length (rows m.clusters)
      → build_tables api heap m ≡ some t
  unfolding build_tables
  build_tables-end t e ids domains index = rw (count_metrics-rows m, e) (ground arith)

-- For every description that an agent may supply the loops end with no assertion failed and every
-- table entry written. The instance-domain table has the entry of each distinct domain, in the
-- order in which the metrics first name them; the metric table has an entry for each metric, in
-- order of cluster and item, whose instance domain is its domain's place in that table, or
-- PM_INDOM_NULL where it has none.
pub build_tables-total :
    (api : Pmapi) (heap : ℕ → InstanceDomain) (m : MetricsDescription)
    → (t : Tables) × (build_tables api heap m ≡ some t)
      × (t.instance_domains ≡ domains_of m)
      × (t.indom_table ≡ map (λ p. some (allocate_pmda_indom (heap p))) (domains_of m))
      × (t.metric_table ≡ map (λ r. some (metric_entry api (domains_of m) r)) (rows m.clusters))
build_tables-total api heap m =
    let ds = domains_of m in
    let (t, e, hi, hm) =
      init_rows-Has api heap (length (rows m.clusters)) (length ds) [] (rows m.clusters) []
        (start m) (start-HasIndoms api heap m) (start-HasMetrics api heap m) (omega arith)
        (omega arith) in
    let ki : hi.room ≡ 0 = omega (arith, hi.room_left) in
    let km : hm.room ≡ 0 = omega (arith, hm.room_left) in
    (
      t,
      build_tables-end api heap m t
          (init_clusters-rows api heap (length (rows m.clusters)) (length ds) m.clusters (start m)
            ∙ e)
          (hi.ids_size) (ap length hi.domains) hm.index,
      hi.domains,
      hi.indoms ∙ rw ki (append-nil _),
      hm.metrics ∙ rw km (append-nil _),
    )
