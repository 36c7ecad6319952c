-- ===== src/Export/Columns.antt =====
-- The alignment of the lines that export_pmns_data writes for metrics.
use pcp_pmda_cpp.Base.{
  ℕ, ◌+◌, ◌-◌, ◌≤◌, ◌≡◌, ap, none, arith, Text, codes, [], ◌∷◌, ◌++◌, length, length-append,
  length-replicate, drop, drop-append, replicate, decimal, some,
}
use pcp_pmda_cpp.Map.{Map, find, nat_ord}
use pcp_pmda_cpp.Metrics.Defs.{MetricDescription, MetricCluster, MetricsDescription}
use pcp_pmda_cpp.Export.Files.{endl}
use pcp_pmda_cpp.Export.Pmns.{longer, longest_in_cluster, longest_name, metric_line}

longest_in_cluster-ge : (m : Map ℕ MetricDescription) (n : ℕ) → n ≤ longest_in_cluster m n
unfolding longest_in_cluster
longest_in_cluster-ge [] n = omega arith
longest_in_cluster-ge ((i, d) ∷ m) n =
    ground (arith, longest_in_cluster-ge m (longer (length d.metric_name) n))

length-some :
    (e d : MetricDescription) → some e ≡ some d → length e.metric_name ≡ length d.metric_name
length-some e d h = ap (λ o. elim o [ none ↦ 0 | some x ↦ length x.metric_name ]) h

find-longest_in_cluster :
    (m : Map ℕ MetricDescription) (n i : ℕ) (d : MetricDescription)
    → find i m ≡ some d
    → length d.metric_name ≤ longest_in_cluster m n
unfolding longest_in_cluster find
find-longest_in_cluster [] n i d h = ground arith
find-longest_in_cluster ((j, e) ∷ m) n i d h = ground (
  arith,
  find-longest_in_cluster m (longer (length e.metric_name) n) i d,
  longest_in_cluster-ge m (longer (length e.metric_name) n),
  length-some e d,
)

longest_name-ge : (m : Map ℕ MetricCluster) (n : ℕ) → n ≤ longest_name m n
unfolding longest_name
longest_name-ge [] n = omega arith
longest_name-ge ((c, k) ∷ m) n =
    omega
      (arith, longest_in_cluster-ge k.metrics n, longest_name-ge m (longest_in_cluster k.metrics n))

find-longest_name :
    (m : Map ℕ MetricCluster) (n c i : ℕ) (k : MetricCluster) (d : MetricDescription)
    → find c m ≡ some k
    → find i k.metrics ≡ some d
    → length d.metric_name ≤ longest_name m n
unfolding longest_name find
find-longest_name [] n c i k d h g = ground arith
find-longest_name ((j, e) ∷ m) n c i k d h g = ground (
  arith,
  find-longest_name m (longest_in_cluster e.metrics n) c i k d,
  longest_name-ge m (longest_in_cluster e.metrics n),
  find-longest_in_cluster e.metrics n i d,
  g,
)

drop-padded :
    (name rest : Text) (widest : ℕ)
    → length name ≤ widest
    → drop (widest + 8) (codes "    " ++ name ++ replicate (widest - length name + 4) b' ' ++ rest)
      ≡ rest
drop-padded name rest widest h =
    drop-append (widest + 8) ((codes "    " ++ name) ++ padding) rest width
  where
    padding : Text
    padding = replicate (widest - length name + 4) b' '

    width : length ((codes "    " ++ name) ++ padding) ≡ widest + 8
    width = omega (
      arith,
      length-append (codes "    " ++ name) padding,
      length-replicate {A = ℕ} (widest - length name + 4) b' ',
      h,
    )

-- Each line of a registered metric has the agent's name in the same column: eight bytes after the
-- width of the longest metric name of all clusters, and there it ends as NAME:cluster:item.
pub metric_line-column :
    (m : MetricsDescription) (c i : ℕ) (k : MetricCluster) (d : MetricDescription)
    → find c m.clusters ≡ some k
    → find i k.metrics ≡ some d
    → (upper : Text)
    → drop
        (longest_name m.clusters 0 + 8)
        (metric_line upper (longest_name m.clusters 0) k.cluster_id i d.metric_name)
      ≡ upper ++ codes ":" ++ decimal k.cluster_id ++ codes ":" ++ decimal i ++ endl
unfolding metric_line
metric_line-column m c i k d h g upper =
    drop-padded d.metric_name
      (upper ++ codes ":" ++ decimal k.cluster_id ++ codes ":" ++ decimal i ++ endl)
      (longest_name m.clusters 0) (find-longest_name m.clusters 0 c i k d h g)
