-- ===== src/Pmda/Counts.antt =====
-- count_metrics (include/pcp-cpp/pmda.hpp): the sizes of the two tables of initialize_pmda.
use native.Mathlib.Nat.{add_assoc}
use pcp_pmda_cpp.Base.{
  ℕ, ◌+◌, ◌≡◌, refl, ap, subst, List, [], ◌∷◌, ◌++◌, length, length-append, Option, none, some,
  is_some, arith,
}
use pcp_pmda_cpp.Map.{Map, find, size, nat_ord}
use pcp_pmda_cpp.Map.Lookup.{find-insert, size-insert}
use pcp_pmda_cpp.Metrics.Defs.{MetricDescription, MetricCluster, MetricsDescription}
use pcp_pmda_cpp.Pmda.Rows.{
  Row, cluster_rows, rows, position?, with_domain, domains_from, position?-append,
}
use pcp_pmda_cpp.Pmda.Init.{Counts, count_domain, count_cluster, count_clusters, count_metrics}

domains_from-append :
    (ds : List ℕ) (xs ys : List Row)
    → domains_from ds (xs ++ ys) ≡ domains_from (domains_from ds xs) ys
domains_from-append ds [] ys = refl
domains_from-append ds (r ∷ xs) ys = domains_from-append (with_domain ds r.description.domain) xs ys

-- The set holds the domains `ds`, and `n` metrics have been counted.
record Counted (ds : List ℕ) (n : ℕ) (c : Counts) : Type 0 where
  number : c.0 ≡ n
  members : (p : ℕ) → is_some (find p c.1) ≡ is_some (position? p ds)
  count_of : size c.1 ≡ length ds

count_domain-Counted :
    (ds : List ℕ) (o : Option ℕ) (n : ℕ) (c : Counts)
    → Counted ds n c
    → Counted (with_domain ds o) (n + 1) (c.0 + 1, count_domain o c.1)
count_domain-Counted ds none n c h = record {
  number = ap (λ x. x + 1) h.number;
  members = h.members;
  count_of = h.count_of;
}
count_domain-Counted ds (some p) n c h = record {
  number = ap (λ x. x + 1) h.number;
  members = λ q.
      ground (arith, find-insert p q tt c.1, h.members q, h.members p, position?-append q p ds);
  count_of =
      ground (arith, size-insert p tt c.1, h.members p, h.count_of, length-append ds (p ∷ []));
}

count_cluster-Counted :
    (k : ℕ) (m : Map ℕ MetricDescription) (ds : List ℕ) (n : ℕ) (c : Counts)
    → Counted ds n c
    → Counted
        (domains_from ds (cluster_rows k m))
        (n + length (cluster_rows k m))
        (count_cluster m c)
unfolding count_cluster
count_cluster-Counted k [] ds n c h = record {
  number = omega (arith, h.number);
  members = h.members;
  count_of = h.count_of;
}
count_cluster-Counted k ((i, d) ∷ m) ds n c h =
    subst
      (λ x.
        Counted (domains_from (with_domain ds d.domain) (cluster_rows k m)) x
          (count_cluster m (c.0 + 1, count_domain d.domain c.1)))
      (omega arith)
      (count_cluster-Counted k m (with_domain ds d.domain) (n + 1) _
        (count_domain-Counted ds d.domain n c h))

count_clusters-Counted :
    (m : Map ℕ MetricCluster) (ds : List ℕ) (n : ℕ) (c : Counts)
    → Counted ds n c
    → Counted (domains_from ds (rows m)) (n + length (rows m)) (count_clusters m c)
unfolding count_clusters
count_clusters-Counted [] ds n c h = record {
  number = omega (arith, h.number);
  members = h.members;
  count_of = h.count_of;
}
count_clusters-Counted ((_, k) ∷ m) ds n c h =
    rw
      (
        domains_from-append ds (cluster_rows k.cluster_id k.metrics) (rows m),
        length-append (cluster_rows k.cluster_id k.metrics) (rows m),
        ← add_assoc n (length (cluster_rows k.cluster_id k.metrics)) (length (rows m)),
      )
      (count_clusters-Counted m (domains_from ds (cluster_rows k.cluster_id k.metrics))
        (n + length (cluster_rows k.cluster_id k.metrics)) (count_cluster k.metrics c)
        (count_cluster-Counted k.cluster_id k.metrics ds n c h))

-- The counts are the number of metrics and that of the instance domains they name, each once.
pub count_metrics-rows :
    (m : MetricsDescription)
    → count_metrics m ≡ (length (rows m.clusters), length (domains_from [] (rows m.clusters)))
unfolding count_metrics find
count_metrics-rows m =
    let h =
      count_clusters-Counted m.clusters [] 0 (0, [])
        (record { number = refl; members = λ p. refl; count_of = refl }) in
    ground (arith, h.number, h.count_of)
