-- ===== src/Metrics/Calls.antt =====
-- What one call of an operator changes, and what a chain of calls is read as
-- (include/pcp-cpp/metric_description.hpp).
use mathlib.Core.Option
use pcp_pmda_cpp.Base.{
  ℕ, ◌≡◌, refl, Text, List, [], ◌∷◌, Option, none, some, arith, ◌==◌, if◌then◌else◌, or_else, Bool,
  true, false, All, inl, inr, Option-cases, is_some, ◌&&◌, codes,
}
use pcp_pmda_cpp.Map.{insert, update, find, nat_ord}
use pcp_pmda_cpp.Map.Lookup.{find-insert, find-update}
use pcp_pmda_cpp.Map.Sorted.{IsSorted}
use pcp_pmda_cpp.Pcp.{Pmapi}
use pcp_pmda_cpp.Exception.{ok, err, pcp, exception}
use pcp_pmda_cpp.Metrics.Defs.{
  MetricDescription, MetricCluster, MetricsDescription, metric_description, metric_cluster,
}
use pcp_pmda_cpp.Metrics.Lookup.{lookup}
use pcp_pmda_cpp.Metrics.ClusterCall
use pcp_pmda_cpp.Metrics.MetricCall
use pcp_pmda_cpp.Metrics.MetricCall.{call_cluster, add_to_recent}
use pcp_pmda_cpp.Metrics.Chain.{
  Form, flags_domain, domain_flags, domain_texts, Call, cluster, metric, call,
}

-- The name of a cluster.
unfoldable pub name_of : ℕ → MetricsDescription → Option Text
name_of c m = Option.map (λ k. k.cluster_name) (find c m.clusters)

abbrev pub into : ℕ → MetricDescription → MetricCluster → MetricCluster
into i d k = record k { metrics = insert i d k.metrics }

abbrev pub added : ℕ → ℕ → MetricDescription → MetricsDescription → MetricsDescription
added c i d m = record m { clusters = update c (into i d) m.clusters }

-- A metric goes into the most recently named cluster, by every one of the overloads alike.
pub call-metric :
    (api : Pmapi) (form : Form) (i : ℕ) (d : MetricDescription) (m : MetricsDescription) {c : ℕ}
    → m.most_recent_cluster ≡ some c
    → call api (metric form i d) m ≡ ok (added c i d m)
unfolding call MetricCall.flags_domain MetricCall.domain_flags MetricCall.domain_texts
    ClusterCall.domain_texts metric_description
call-metric api flags_domain i d m e = rw e
call-metric api domain_flags i d m e = rw e
call-metric api domain_texts i d m e = rw e

pub call-cluster :
    (api : Pmapi) (id : ℕ) (name : Text) (m : MetricsDescription)
    → call api (cluster id name) m ≡ ok (call_cluster id name m)
unfolding call
call-cluster api id name m = refl

pub call-metric_none :
    (api : Pmapi) (form : Form) (i : ℕ) (d : MetricDescription) (m : MetricsDescription)
    → m.most_recent_cluster ≡ none
    → call api (metric form i d) m
      ≡ err (pcp (exception api api.err_generic (codes "no cluster to add metric to")))
unfolding call MetricCall.flags_domain MetricCall.domain_flags MetricCall.domain_texts
call-metric_none api flags_domain i d m e = rw e
call-metric_none api domain_flags i d m e = rw e
call-metric_none api domain_texts i d m e = rw e

abbrev pub is_recent : Option ℕ → ℕ → Bool
is_recent none _ = false
is_recent (some k) k' = k == k'

-- What a chain gives for a metric, read from its calls: the first that names the item while the
-- cluster is the one named last. `r` is the cluster named before.
abbrev pub first_metric : Option ℕ → List Call → ℕ → ℕ → Option MetricDescription
first_metric r [] c i = none
first_metric r (cluster id _ ∷ cs) c i = first_metric (some id) cs c i
first_metric r (metric _ j d ∷ cs) c i =
    if is_recent r c && j == i then some d else first_metric r cs c i

-- The name of a cluster: the first that a call gives with its number.
abbrev pub first_name : List Call → ℕ → Option Text
first_name [] c = none
first_name (cluster id name ∷ cs) c = if id == c then some name else first_name cs c
first_name (metric _ _ _ ∷ cs) c = first_name cs c

-- Clusters and metrics are in order, each cluster carries the number that it stands under, and
-- the most recent one is there.
pub record IsWellFormed (m : MetricsDescription) : Type 0 where
  pub sorted : IsSorted m.clusters
  pub clusters_sorted : All (λ e. (e.1.cluster_id ≡ e.0) × IsSorted e.1.metrics) m.clusters
  pub recent : (c : ℕ) → m.most_recent_cluster ≡ some c → is_some (find c m.clusters) ≡ true

pub lookup-call_cluster :
    (id : ℕ) (name : Text) (m : MetricsDescription) (c i : ℕ)
    → lookup c i (call_cluster id name m) ≡ lookup c i m
unfolding lookup call_cluster find
lookup-call_cluster id name m c i =
    ground (arith, find-insert id c (metric_cluster id name) m.clusters)

pub name_of-call_cluster :
    (id : ℕ) (name : Text) (m : MetricsDescription) (c : ℕ)
    → name_of c (call_cluster id name m)
      ≡ (if id == c then some (or_else (name_of c m) name) else name_of c m)
unfolding name_of call_cluster
name_of-call_cluster id name m c =
    ground (arith, find-insert id c (metric_cluster id name) m.clusters)

pub lookup-added :
    (r j : ℕ) (d : MetricDescription) (m : MetricsDescription) (c i : ℕ)
    → is_some (find r m.clusters) ≡ true
    → lookup c i (added r j d m)
      ≡ (if r == c && j == i then some (or_else (lookup c i m) d) else lookup c i m)
unfolding lookup
lookup-added r j d m c i h = elim (Option-cases (find c m.clusters)) [
  | inl e ↦ ground (arith, find-update r c (into j d) m.clusters)
  | inr (k, e) ↦ ground (arith, find-update r c (into j d) m.clusters, find-insert j i d k.metrics)
]

pub name_of-added :
    (r j : ℕ) (d : MetricDescription) (m : MetricsDescription) (c : ℕ)
    → name_of c (added r j d m) ≡ name_of c m
unfolding name_of
name_of-added r j d m c = ground (arith, find-update r c (into j d) m.clusters)
