-- ===== src/Simple/Metrics.antt =====
-- The metrics of example/simple/simple.cpp.
use pcp_pmda_cpp.Pmda.Store.{is_storable}
use pcp_pmda_cpp.Base.{
  Bool, false, ◌==◌, ◌&&◌, ltb, arith, ℕ, ◌≡◌, ◌∙◌, ap, Text, codes, List, [], ◌∷◌, Option, none,
  some,
}
use pcp_pmda_cpp.Base.Int.{pos}
use pcp_pmda_cpp.Pcp.{Pmapi}
use pcp_pmda_cpp.Units.{units}
use pcp_pmda_cpp.Exception.{ok}
use pcp_pmda_cpp.Metrics.Defs.{
  MetricDescription, MetricsDescription, metrics_description, storable_metric,
}
use pcp_pmda_cpp.Metrics.Lookup.{lookup}
use pcp_pmda_cpp.Metrics.Chain
use pcp_pmda_cpp.Metrics.Chain.{Call, cluster, metric, chain}
use pcp_pmda_cpp.Metrics.Calls.{first_metric}
use pcp_pmda_cpp.Metrics.Build.{chain-builds}
use pcp_pmda_cpp.Atom.Types.{CppType, type}
use pcp_pmda_cpp.Pmda.State.{Pmda, Method}

module _ (api : Pmapi) (color_domain now_domain : ℕ) where
  -- A metric, with the arguments that have a default left out.
  unfoldable pub numfetch : MetricDescription
  unfolding units type
  numfetch = record {
    metric_name = codes "numfetch";
    type = type api.types CppType.uint32;
    semantic = api.sem_instant;
    units = units api (pos 0) (pos 0) (pos 0) 0 0 (pos 0);
    domain = none;
    short_description = [];
    verbose_description = [];
    opaque = 0;
    flags = storable_metric;
  }

  unfoldable pub color : MetricDescription
  unfolding units type
  color = record {
    metric_name = codes "color";
    type = type api.types CppType.int32;
    semantic = api.sem_instant;
    units = units api (pos 0) (pos 0) (pos 0) 0 0 (pos 0);
    domain = some color_domain;
    short_description = [];
    verbose_description = [];
    opaque = 0;
    flags = storable_metric;
  }

  unfoldable pub time : Text → MetricDescription
  unfolding units type
  time name = record {
    metric_name = name;
    type = type api.types CppType.double;
    semantic = api.sem_counter;
    units = units api (pos 0) (pos 1) (pos 0) 0 api.time_sec (pos 0);
    domain = none;
    short_description = [];
    verbose_description = [];
    opaque = 0;
    flags = 0;
  }

  unfoldable pub now : MetricDescription
  unfolding units type
  now = record {
    metric_name = codes "now";
    type = type api.types CppType.uint32;
    semantic = api.sem_instant;
    units = units api (pos 0) (pos 0) (pos 0) 0 0 (pos 0);
    domain = some now_domain;
    short_description = [];
    verbose_description = [];
    opaque = 0;
    flags = 0;
  }

  abbrev pub calls : List Call
  calls =
      cluster 0 []
      ∷ metric Chain.flags_domain 0 numfetch
      ∷ metric Chain.domain_flags 1 color
      ∷ cluster 1 (codes "time")
      ∷ metric Chain.domain_texts 2 (time (codes "user"))
      ∷ metric Chain.domain_texts 3 (time (codes "sys"))
      ∷ cluster 2 []
      ∷ metric Chain.domain_texts 4 now
      ∷ []

  unfoldable pub get_supported_metrics {ℓ} : {S : Type ℓ} → Method S MetricsDescription
  unfolding chain metrics_description numfetch color time now
  get_supported_metrics s = (chain api calls metrics_description, s)

  -- Whether there is a metric that can be stored.
  abbrev pub is_storable_at : Option MetricDescription → Bool
  is_storable_at none = false
  is_storable_at (some d) = is_storable d

  first_metric-storable :
      (c i : ℕ) → is_storable_at (first_metric none calls c i) ≡ (c == 0 && ltb i 2)
  unfolding numfetch color time now is_storable
  first_metric-storable c i = ground arith

  -- The metrics are built without an exception. Under a cluster and an item there is the one that
  -- the chain first gives there, and those that can be stored are items 0 and 1 of cluster 0.
  pub get_supported_metrics-storable {ℓ} :
      {S : Type ℓ} (s : Pmda S)
      → (m : MetricsDescription) × (get_supported_metrics s ≡ (ok m, s))
        × ((c i : ℕ) → lookup c i m ≡ first_metric none calls c i)
        × ((c i : ℕ) → is_storable_at (lookup c i m) ≡ (c == 0 && ltb i 2))
  unfolding get_supported_metrics
  get_supported_metrics-storable s =
      let (m, e, _, found, _) = chain-builds api calls tt in
      (
        m,
        ap (λ r. (r, s)) e,
        found,
        (λ c i. ap is_storable_at (found c i) ∙ first_metric-storable c i),
      )
