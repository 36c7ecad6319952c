-- ===== src/Metrics/MetricCall.antt =====
-- include/pcp-cpp/metric_description.hpp: the overloads of metrics_description::operator().
use pcp_pmda_cpp.Base.{ℕ, Text, codes, Option, none, some}
use pcp_pmda_cpp.Map.{insert, update, nat_ord}
use pcp_pmda_cpp.Pcp.{Pmapi}
use pcp_pmda_cpp.Exception.{Result, ok, err, pcp, exception}
use pcp_pmda_cpp.Metrics.Defs.{MetricCluster, metric_cluster, MetricsDescription}
use pcp_pmda_cpp.Metrics.ClusterCall

-- `metrics(cluster_id, cluster_name)`: the iterator moves to the cluster, new or old.
unfoldable pub call_cluster : ℕ → Text → MetricsDescription → MetricsDescription
unfolding metric_cluster
call_cluster id name m = record {
  clusters = insert id (metric_cluster id name) m.clusters;
  most_recent_cluster = some id;
}

-- The body that the three overloads of metrics_description::operator() for a metric share: it
-- throws where no cluster has been opened, and calls the cluster's third overload.
unfoldable pub add_to_recent :
    Pmapi → (MetricCluster → MetricCluster) → MetricsDescription → Result MetricsDescription
add_to_recent api f m = elim m.most_recent_cluster [
  | none ↦ err (pcp (exception api api.err_generic (codes "no cluster to add metric to")))
  | some c ↦ ok (record m { clusters = update c f m.clusters })
]

unfoldable pub flags_domain :
    Pmapi
    → ℕ
    → Text
    → ℕ
    → ℕ
    → ℕ
    → ℕ
    → Option ℕ
    → Text
    → Text
    → ℕ
    → MetricsDescription
    → Result MetricsDescription
unfolding add_to_recent
flags_domain api item name t sem u fl dom short verbose o =
    add_to_recent api (ClusterCall.domain_texts item name t sem u dom short verbose o fl)

unfoldable pub domain_flags :
    Pmapi
    → ℕ
    → Text
    → ℕ
    → ℕ
    → ℕ
    → Option ℕ
    → ℕ
    → Text
    → Text
    → ℕ
    → MetricsDescription
    → Result MetricsDescription
unfolding add_to_recent
domain_flags api item name t sem u dom fl short verbose o =
    add_to_recent api (ClusterCall.domain_texts item name t sem u dom short verbose o fl)

unfoldable pub domain_texts :
    Pmapi
    → ℕ
    → Text
    → ℕ
    → ℕ
    → ℕ
    → Option ℕ
    → Text
    → Text
    → ℕ
    → ℕ
    → MetricsDescription
    → Result MetricsDescription
unfolding add_to_recent
domain_texts api item name t sem u dom short verbose o fl =
    add_to_recent api (ClusterCall.domain_texts item name t sem u dom short verbose o fl)
