-- ===== src/Tests/Moments.antt =====
-- simple.now and simple.color from the DSO's entry point on.
use pcp_pmda_cpp.Base.{◌≡◌, refl, ap, arith, true, is_some, c_str, codes, List, [], ◌∷◌, none, some}
use pcp_pmda_cpp.Base.Int.{ℤ, pos}
use pcp_pmda_cpp.Base.Streams.{getlines, split_at}
use pcp_pmda_cpp.Map.{find, insert, update, nat_ord}
use pcp_pmda_cpp.Pcp.{pcp4, pcp4-PmidLaws, pcp4_types-IsAscending}
use pcp_pmda_cpp.Exception.{Result, ok}
use pcp_pmda_cpp.InstanceDomain.{call_name}
use pcp_pmda_cpp.Metrics.Chain
use pcp_pmda_cpp.Metrics.MetricCall
use pcp_pmda_cpp.Metrics.ClusterCall
use pcp_pmda_cpp.Metrics.Defs.{metric_description}
use pcp_pmda_cpp.Pmda.Init.{
  initialize_pmda, build_tables, init_clusters, init_cluster, init_metric, count_metrics,
  count_clusters, count_cluster, init_indom, record_indoms, record_indom,
}
use pcp_pmda_cpp.Simple.BeginFetch.{begin_fetch_values-Begun}
use pcp_pmda_cpp.Atom.Words.{to_unsigned, to_signed}
use pcp_pmda_cpp.Cache.Defs.{
  lookup_id, require_active, checked, is_refused, perform, store_opaque, thrown_if_neg,
}
use pcp_pmda_cpp.Pmda.State.{Pmda, notify}
use pcp_pmda_cpp.Pmda.Fetch.{PmdaMetric, on_fetch_callback}
use pcp_pmda_cpp.Pmda.LifeCycle.{Process}
use pcp_pmda_cpp.Pmda.Callbacks.{set_callbacks}
use pcp_pmda_cpp.Pmda.Serving.{Request, profile, Serves, idle, next}
use pcp_pmda_cpp.Simple.TimeNow.{
  State, begin_fetch_values, timenow_check, check_stat, stat_found, timenow_clear, timenow_init,
  read_config, read_lines, store_names, store_name, store_slice, add_instance, check_size,
  warn_if_empty, timenow_refresh,
}
use pcp_pmda_cpp.Simple.Agent.{construct, simple}
use pcp_pmda_cpp.Simple.Program.{simple_init}
use pcp_pmda_cpp.Base.{◌+◌, ◌%◌, set}
use pcp_pmda_cpp.Atom.Defs.{l}
use pcp_pmda_cpp.Pmda.Store.{on_store}
use pcp_pmda_cpp.Simple.ColourServed.{colour_set, simple_init-color}
use pcp_pmda_cpp.Pmda.StoreOne.{one_value}
use pcp_pmda_cpp.Simple.ColourRefused.{refused_code, IsLogged, simple_init-refused}
use pcp_pmda_cpp.Simple.NowServed.{at_time, simple_init-now}
use pcp_pmda_cpp.Tests.Atoms.{whole_floats}
use pcp_pmda_cpp.Tests.Cache.{Entries}
use pcp_pmda_cpp.Tests.Fixtures.{config}
use pcp_pmda_cpp.Tests.Requests.{defaults}
use pcp_pmda_cpp.Tests.TimeSlices.{cache, cache-Accepts, slice, os}
use pcp_pmda_cpp.Tests.Colours.{raw, apart, ready, started, simple_agent}

abbrev asked : List (Request × Result ℤ)
asked = (profile 5, ok (pos 0)) ∷ []

served : Serves config pcp4 defaults simple_agent started asked started
unfolding set_callbacks
served = next (os, (pos 0, pos 0)) refl refl idle

abbrev loaded : Process (State whole_floats Entries)
loaded =
    (simple_init whole_floats config pcp4 cache (codes "out_of_range") 16 32 slice (λ t i. i)
      (os, (pos 0, pos 0)) 7 (pos 0) raw
      (record { instance_ = none; freed = []; process_log = [] })).1

loaded-served : Serves config pcp4 defaults simple_agent loaded asked started
unfolding simple_init simple Chain.call MetricCall.flags_domain MetricCall.domain_flags
    MetricCall.domain_texts
loaded-served = served

abbrev begun : Pmda (State whole_floats Entries)
begun = (begin_fetch_values whole_floats pcp4 cache 32 slice os ready).1

begun_run : begin_fetch_values whole_floats pcp4 cache 32 slice os ready ≡ (ok tt, begun)
begun_run =
    let (_, run, _) =
      begin_fetch_values-Begun whole_floats pcp4 cache 32 slice cache-Accepts (omega arith)
        (omega arith) (omega arith) os ready in
    ap (λ x. (x.0, begun)) run

sec_found :
    (is_some (find 1 (begun.heap 32).instances) ≡ true)
    × (lookup_id pcp4 cache (begun.heap 32).pm_instance_domain 1 require_active begun.agent.1.cache
        ≡ ok (record { name = some (codes "sec"); instance_id = 1; opaque = 1000; status = pos 8 }))
unfolding begin_fetch_values timenow_check check_stat stat_found timenow_clear timenow_init
    read_config getlines read_lines split_at store_names store_name store_slice add_instance
    check_size warn_if_empty timenow_refresh perform store_opaque thrown_if_neg c_str lookup_id
    checked is_refused to_signed to_unsigned call_name insert notify simple find Chain.call
    MetricCall.flags_domain MetricCall.domain_flags MetricCall.domain_texts initialize_pmda
    build_tables init_clusters update init_cluster ClusterCall.domain_texts init_metric
    count_metrics count_clusters count_cluster init_indom metric_description record_indoms
    record_indom construct
sec_found = (refl, refl)

abbrev mdesc : PmdaMetric
mdesc = record {
  m_user = 0;
  m_desc = record { indom = 0; pmid = pcp4.pmda_pmid 2 4; sem = 0; type = 0; units = 0 };
}

simple_init-now_example :
    on_fetch_callback config pcp4 (simple_agent (os, (pos 0, pos 0))) mdesc 1 begun
    ≡ (at_time whole_floats config pcp4 cache 16 32 slice os 0, begun)
simple_init-now_example =
    simple_init-now whole_floats config pcp4 cache 16 32 slice pcp4-PmidLaws pcp4_types-IsAscending
      cache-Accepts apart (omega arith) (omega arith) (omega arith) defaults (codes "out_of_range")
      (λ t i. i) (os, (pos 0, pos 0)) 7 (pos 0) raw ready begun
      (record { instance_ = none; freed = []; process_log = [] }) started asked os (pos 0, pos 0)
      mdesc 0 1
      (record { name = some (codes "sec"); instance_id = 1; opaque = 1000; status = pos 8 }) refl
      (omega arith) (omega arith) refl refl (omega arith) (omega arith) refl loaded-served refl
      begun_run sec_found.0 sec_found.1

abbrev color_mdesc : PmdaMetric
color_mdesc = record mdesc { m_desc = record mdesc.m_desc { pmid = pcp4.pmda_pmid 0 1 } }

simple_init-color_example :
    (s' : Pmda (State whole_floats Entries)) × (some ready ≡ some s')
    × (let (code, kept) =
          on_store config pcp4
            (simple_agent (os, (pos 1, pos 2)))
            (pos 0)
            (colour_set pcp4 2 255 ∷ [])
            s' in
        let (answer, after) =
          on_fetch_callback config pcp4 (simple_agent (os, (pos 3, pos 4))) color_mdesc 2 kept in
        (code ≡ pos 0)
        × (answer ≡ (pcp4.fetch_static, some (l (pos ((255 + 1) % 256)))))
        × (after.agent.0.rgb ≡ set s'.agent.0.rgb 2 ((255 + 1) % 256)))
simple_init-color_example =
    simple_init-color whole_floats config pcp4 cache 16 32 slice pcp4-PmidLaws
      pcp4_types-IsAscending apart defaults (codes "out_of_range") (λ t i. i) (os, (pos 0, pos 0))
      (os, (pos 1, pos 2)) (os, (pos 3, pos 4)) 7 (pos 0) (pos 0) raw
      (record { instance_ = none; freed = []; process_log = [] }) started asked color_mdesc 255 2
      refl (omega arith) (omega arith) refl refl (omega arith) (omega arith) (omega arith)
      loaded-served

simple_init-refused_example :
    (s' : Pmda (State whole_floats Entries)) × (some ready ≡ some s')
    × (let (code, after) =
          on_store config pcp4
            (simple_agent (os, (pos 1, pos 2)))
            (pos 0)
            (one_value
                (pcp4.pmda_pmid 0 1)
                pcp4.val_insitu
                (record { inst = 1; lval = pos 256; pval = 0 })
              ∷ [])
            s' in
        (code ≡ refused_code pcp4 (pos 256)) × IsLogged s' after)
simple_init-refused_example =
    simple_init-refused whole_floats config pcp4 cache 16 32 slice pcp4-PmidLaws apart defaults
      (codes "out_of_range") (λ t i. i) (os, (pos 0, pos 0)) (os, (pos 1, pos 2)) 7 (pos 0) (pos 0)
      raw (record { instance_ = none; freed = []; process_log = [] }) started asked (pos 256) 1 refl
      (omega arith) refl (λ h. omega (arith, h.1)) (omega arith) (omega arith) loaded-served
