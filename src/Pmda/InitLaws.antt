-- ===== src/Pmda/InitLaws.antt =====
-- The loops of initialize_pmda build the tables that `Rows` describes, and no assertion fails
-- (include/pcp-cpp/pmda.hpp).
use pcp_pmda_cpp.Base.{
  ℕ, suc, ◌+◌, ◌-◌, ◌≤◌, ◌<◌, ◌≡◌, refl, sym, subst, ap, ◌∙◌, List, [], ◌∷◌, ◌++◌, length,
  length-append, Option, none, some, arith, append_assoc, append-nil, Option-cases, inl, inr,
  replicate, set-filled, fun_ext,
}
use pcp_pmda_cpp.Map.{Map, nat_ord}
use pcp_pmda_cpp.Pcp.{Pmapi}
use pcp_pmda_cpp.InstanceDomain.{InstanceDomain}
use pcp_pmda_cpp.Metrics.Defs.{MetricDescription, MetricCluster, to_pm_desc}
use pcp_pmda_cpp.Pmda.Fetch.{PmdaMetric}
use pcp_pmda_cpp.Pmda.Rows.{
  Row, cluster_rows, rows, with_domain, domains_from, indom_of, metric_entry,
  length-domains_from_le, indom_of-domains_from,
}
use pcp_pmda_cpp.Pmda.Init.{Tables, init_indom, init_metric, init_cluster, init_clusters, ◌>>=ᵒ◌}
use pcp_pmda_cpp.Pmda.InitIndoms.{HasIndoms, HasMetrics, write_metric, init_indom-HasIndoms}

module _ (api : Pmapi) (heap : ℕ → InstanceDomain) (metric_count indom_count : ℕ) where
  pub init_rows : List Row → Tables → Option Tables
  init_rows [] t = some t
  init_rows (r ∷ rs) t =
      init_metric api heap metric_count indom_count r.cluster_id r.item r.description t
      >>=ᵒ init_rows rs

  init_rows-append :
      (xs ys : List Row) (t : Tables) → init_rows (xs ++ ys) t ≡ (init_rows xs t >>=ᵒ init_rows ys)
  unfolding init_rows
  init_rows-append [] ys t = refl
  init_rows-append (r ∷ xs) ys t =
      elim (Option-cases
        (init_metric api heap metric_count indom_count r.cluster_id r.item r.description t)) [
          | inl e ↦ rw e
          | inr (t', e) ↦ rw e (init_rows-append xs ys t')
        ]

  init_cluster-rows :
      (c : ℕ) (m : Map ℕ MetricDescription) (t : Tables)
      → init_cluster api heap metric_count indom_count c m t ≡ init_rows (cluster_rows c m) t
  unfolding init_cluster init_rows
  init_cluster-rows c [] t = refl
  init_cluster-rows c ((i, d) ∷ m) t = rw (fun_ext (init_cluster-rows c m))

  pub init_clusters-rows :
      (m : Map ℕ MetricCluster) (t : Tables)
      → init_clusters api heap metric_count indom_count m t ≡ init_rows (rows m) t
  unfolding init_clusters init_rows
  init_clusters-rows [] t = refl
  init_clusters-rows ((_, k) ∷ m) t =
      rw (init_cluster-rows k.cluster_id k.metrics t, fun_ext (init_clusters-rows m))
        (sym (init_rows-append (cluster_rows k.cluster_id k.metrics) (rows m) t))

  init_metric-write :
      (r : Row) (ds : List ℕ) (t t' : Tables)
      → t.metric_index < metric_count
      → init_indom api heap metric_count indom_count r.description.domain t
        ≡ some (indom_of api ds r.description.domain, t')
      → init_metric api heap metric_count indom_count r.cluster_id r.item r.description t
        ≡ some ((write_metric api heap metric_count indom_count) (metric_entry api ds r) t')
  unfolding init_metric to_pm_desc
  init_metric-write r ds t t' room e = ground arith

  write_metric-HasMetrics :
      (fin : List ℕ) (done : List Row) (r : Row) (t : Tables)
      (h : (HasMetrics api heap metric_count indom_count) fin done t) (k : ℕ)
      → h.room ≡ suc k
      → (HasMetrics api heap metric_count indom_count) fin
          (done ++ r ∷ [])
          ((write_metric api heap metric_count indom_count) (metric_entry api fin r) t)
  write_metric-HasMetrics fin done r t h k e = record {
    index = omega (arith, h.index, length-append done (r ∷ []));
    room = k;
    room_left = omega (arith, h.room_left, e, length-append done (r ∷ []));
    metrics =
        rw (h.metrics, e, h.index)
          (set-filled (λ x. some (metric_entry api fin x)) done r none (replicate k none));
  }

  HasMetrics-same :
      (fin : List ℕ) (done : List Row) (t t' : Tables)
      → t'.metric_table ≡ t.metric_table
      → t'.metric_index ≡ t.metric_index
      → (HasMetrics api heap metric_count indom_count) fin done t
      → (HasMetrics api heap metric_count indom_count) fin done t'
  HasMetrics-same fin done t t' p q h = record {
    index = q ∙ h.index;
    room = h.room;
    room_left = h.room_left;
    metrics = p ∙ h.metrics;
  }

  write_metric-HasIndoms :
      (ds : List ℕ) (m : PmdaMetric) (t : Tables)
      → (HasIndoms api heap metric_count indom_count) ds t
      → (HasIndoms api heap metric_count indom_count) ds
          ((write_metric api heap metric_count indom_count) m t)
  write_metric-HasIndoms ds m t h = record {
    ids = h.ids;
    ids_size = h.ids_size;
    domains = h.domains;
    room = h.room;
    room_left = h.room_left;
    indoms = h.indoms;
  }

  -- One round of the inner loop.
  init_metric-Has :
      (done : List Row) (r : Row) (rest : List Row) (ds : List ℕ) (t : Tables)
      → (HasIndoms api heap metric_count indom_count) ds t
      → (HasMetrics api heap metric_count indom_count) (domains_from ds (r ∷ rest)) done t
      → length (domains_from ds (r ∷ rest)) ≤ indom_count
      → length done < metric_count
      → (t' : Tables) × (init_metric api heap metric_count indom_count r.cluster_id r.item
            r.description t
          ≡ some t')
        × (HasIndoms api heap metric_count indom_count) (with_domain ds r.description.domain) t'
        × (HasMetrics api heap metric_count indom_count)
            (domains_from ds (r ∷ rest))
            (done ++ r ∷ [])
            t'
  init_metric-Has done r rest ds t hi hm fits room =
      let (t', e, hi', same_table, same_index) =
        (init_indom-HasIndoms api heap metric_count indom_count) ds r.description.domain t hi
          (omega (arith, length-domains_from_le (with_domain ds r.description.domain) rest)) in
      let fin = domains_from ds (r ∷ rest) in
      let hm' = HasMetrics-same fin done t t' same_table same_index hm in
      let same : metric_entry api ds r ≡ metric_entry api fin r =
        rw (indom_of-domains_from api ds r.description.domain rest) refl in
      (
        (write_metric api heap metric_count indom_count) (metric_entry api fin r) t',
        init_metric-write r ds t t' (omega (arith, hm.index)) e
            ∙ ap (λ m. some ((write_metric api heap metric_count indom_count) m t')) same,
        write_metric-HasIndoms _ _ t' hi',
        write_metric-HasMetrics fin done r t' hm' (hm'.room - 1) (omega (arith, hm'.room_left)),
      )

  pub init_rows-Has :
      (done rest : List Row) (ds : List ℕ) (t : Tables)
      → (HasIndoms api heap metric_count indom_count) ds t
      → (HasMetrics api heap metric_count indom_count) (domains_from ds rest) done t
      → length (domains_from ds rest) ≤ indom_count
      → length done + length rest ≤ metric_count
      → (t' : Tables) × (init_rows rest t ≡ some t')
        × (HasIndoms api heap metric_count indom_count) (domains_from ds rest) t'
        × (HasMetrics api heap metric_count indom_count) (domains_from ds rest) (done ++ rest) t'
  unfolding init_rows
  init_rows-Has done [] ds t hi hm fits room = (t, refl, hi, rw (append-nil done) hm)
  init_rows-Has done (r ∷ rest) ds t hi hm fits room =
      let (t', e, hi', hm') = init_metric-Has done r rest ds t hi hm fits (omega arith) in
      let (t'', e', hi'', hm'') =
        init_rows-Has (done ++ r ∷ []) rest (with_domain ds r.description.domain) t' hi' hm' fits
          (omega (arith, length-append done (r ∷ []))) in
      (
        t'',
        rw e e',
        hi'',
        subst
            (λ l. (HasMetrics api heap metric_count indom_count) (domains_from ds (r ∷ rest)) l t'')
            (append_assoc done (r ∷ []) rest) hm'',
      )
