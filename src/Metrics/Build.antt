-- ===== src/Metrics/Build.antt =====
-- What a chain of calls builds (include/pcp-cpp/metric_description.hpp), against a description
-- that reads the calls in order.
use pcp_pmda_cpp.Base.{
  ℕ, ltb, subst, ◌≡◌, refl, ◌∙◌, sym, Text, List, [], ◌∷◌, Option, none, some, arith, first_of, All,
  inl, inr, Option-cases, Bool-cases, codes,
}
use pcp_pmda_cpp.Map.{Map, update, find, nat_ord}
use pcp_pmda_cpp.Map.Lookup.{find-insert, find-update}
use pcp_pmda_cpp.Map.Sorted.{insert-All, IsSorted, insert-IsSorted, update-IsSorted}
use pcp_pmda_cpp.Pcp.{Pmapi}
use pcp_pmda_cpp.Exception.{ok, err, pcp, exception}
use pcp_pmda_cpp.Metrics.Defs.{
  MetricDescription, MetricCluster, MetricsDescription, metrics_description, metric_cluster,
}
use pcp_pmda_cpp.Metrics.Lookup.{lookup}
use pcp_pmda_cpp.Metrics.MetricCall.{call_cluster}
use pcp_pmda_cpp.Metrics.Chain.{Form, Call, cluster, metric, chain}
use pcp_pmda_cpp.Metrics.Calls.{
  name_of, into, added, call-metric, call-cluster, call-metric_none, first_metric, first_name,
  IsWellFormed, lookup-call_cluster, name_of-call_cluster, lookup-added, name_of-added,
}

-- A chain is sound from `r` if a cluster is named before its first metric.
abbrev pub OpensFirst : Option ℕ → List Call → Type 0
OpensFirst (some _) _ = Unit {0}
OpensFirst none [] = Unit {0}
OpensFirst none (cluster _ _ ∷ _) = Unit {0}
OpensFirst none (metric _ _ _ ∷ _) = ⊥

update-into-All :
    (r j : ℕ) (d : MetricDescription) (m : Map ℕ MetricCluster)
    → All (λ e. (e.1.cluster_id ≡ e.0) × IsSorted e.1.metrics) m
    → All (λ e. (e.1.cluster_id ≡ e.0) × IsSorted e.1.metrics) (update r (into j d) m)
unfolding update
update-into-All r j d [] h = tt
update-into-All r j d ((k, w) ∷ m) h = elim (Bool-cases (ltb r k)) [
  | inl e ↦ rw e h
  | inr e ↦ rw e (elim (Bool-cases (ltb k r)) [
    | inl f ↦ rw f (h.0, update-into-All r j d m h.1)
    | inr f ↦ rw f ((h.0.0, insert-IsSorted j d w.metrics h.0.1), h.1)
  ])
]

call_cluster-IsWellFormed :
    (id : ℕ) (name : Text) (m : MetricsDescription)
    → IsWellFormed m
    → IsWellFormed (call_cluster id name m)
unfolding call_cluster
call_cluster-IsWellFormed id name m w = record {
  sorted = insert-IsSorted id _ m.clusters w.sorted;
  clusters_sorted = insert-All _ id _ m.clusters (refl, tt) w.clusters_sorted;
  recent = λ c e. ground (arith, find-insert id c (metric_cluster id name) m.clusters);
}

added-IsWellFormed :
    (r j : ℕ) (d : MetricDescription) (m : MetricsDescription)
    → IsWellFormed m
    → IsWellFormed (added r j d m)
added-IsWellFormed r j d m w = record {
  sorted = update-IsSorted r _ m.clusters w.sorted;
  clusters_sorted = update-into-All r j d m.clusters w.clusters_sorted;
  recent = λ c e. ground (arith, find-update r c (into j d) m.clusters, w.recent c e);
}

-- What `m` has, and what the chain `cs` adds to it.
pub record Built (m m' : MetricsDescription) (cs : List Call) : Type 0 where
  pub well_formed : IsWellFormed m'
  pub metrics :
      (c i : ℕ)
      → lookup c i m' ≡ first_of (lookup c i m) (first_metric m.most_recent_cluster cs c i)
  pub names : (c : ℕ) → name_of c m' ≡ first_of (name_of c m) (first_name cs c)

Built-cluster :
    (m m' : MetricsDescription) (id : ℕ) (name : Text) (cs : List Call)
    → Built (call_cluster id name m) m' cs
    → Built m m' (cluster id name ∷ cs)
unfolding call_cluster
Built-cluster m m' id name cs b = record {
  well_formed = b.well_formed;
  metrics = λ c i. b.metrics c i ∙ rw (lookup-call_cluster id name m c i);
  names = λ c. b.names c ∙ ground (arith, name_of-call_cluster id name m c);
}

Built-metric :
    (m m' : MetricsDescription) (form : Form) (r j : ℕ) (d : MetricDescription) (cs : List Call)
    → m.most_recent_cluster ≡ some r
    → IsWellFormed m
    → Built (added r j d m) m' cs
    → Built m m' (metric form j d ∷ cs)
Built-metric m m' form r j d cs e w b = record {
  well_formed = b.well_formed;
  metrics = λ c i. ground (arith, b.metrics c i, lookup-added r j d m c i, w.recent r e);
  names = λ c. ground (arith, b.names c, name_of-added r j d m c);
}

chain_from :
    (api : Pmapi) (cs : List Call) (m : MetricsDescription)
    → IsWellFormed m
    → OpensFirst m.most_recent_cluster cs
    → (m' : MetricsDescription) × (chain api cs m ≡ ok m') × Built m m' cs
unfolding chain
chain_from api [] m w o =
    (m, refl, record { well_formed = w; metrics = λ c i. ground arith; names = λ c. ground arith })
chain_from api (cluster id name ∷ cs) m w o =
    let (m', e, b) =
      chain_from api cs (call_cluster id name m) (call_cluster-IsWellFormed id name m w)
        (unfold call_cluster in tt) in
    (m', rw (call-cluster api id name m) e, Built-cluster m m' id name cs b)
chain_from api (metric form j d ∷ cs) m w o = elim (Option-cases m.most_recent_cluster) [
  | inl e ↦ absurd (subst (λ r. OpensFirst r (metric form j d ∷ cs)) e o)
  | inr (r, e) ↦
      let (m', e', b) =
        chain_from api cs (added r j d m) (added-IsWellFormed r j d m w)
          (subst (λ x. OpensFirst x cs) (sym e) tt) in
      (m', rw (call-metric api form j d m e) e', Built-metric m m' form r j d cs e w b)
]

-- A chain that names a cluster before its first metric succeeds. What it builds is in order, and
-- under a cluster and an item it has the metric that the chain first gave there, whatever overload
-- gave it and however often the cluster was named; a cluster keeps the name first given to it.
pub chain-builds :
    (api : Pmapi) (cs : List Call)
    → OpensFirst none cs
    → (m : MetricsDescription) × (chain api cs metrics_description ≡ ok m)
      × IsWellFormed m
      × ((c i : ℕ) → lookup c i m ≡ first_metric none cs c i)
      × ((c : ℕ) → name_of c m ≡ first_name cs c)
unfolding metrics_description
chain-builds api cs o =
    let (m, e, b) =
      chain_from api cs metrics_description
        (record { sorted = tt; clusters_sorted = tt; recent = λ c e. ground arith }) o in
    (
      m,
      e,
      b.well_formed,
      (λ c i. b.metrics c i ∙ unfold lookup find in refl),
      (λ c. b.names c ∙ unfold name_of find in refl),
    )

-- A chain that gives a metric before any cluster throws, by whatever overload.
chain-metric_first :
    (api : Pmapi) (form : Form) (i : ℕ) (d : MetricDescription) (cs : List Call)
    → chain api (metric form i d ∷ cs) metrics_description
      ≡ err (pcp (exception api api.err_generic (codes "no cluster to add metric to")))
unfolding chain metrics_description
chain-metric_first api form i d cs = rw (call-metric_none api form i d metrics_description refl)
