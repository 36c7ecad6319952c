-- ===== src/Metrics/Defs.antt =====
-- include/pcp-cpp/metric_description.hpp: the structs, and the looking up of a metric.
use pcp_pmda_cpp.Base.{ℕ, Text, [], Option, none, bit_or}
use pcp_pmda_cpp.Map.{Map, find, nat_ord}
use pcp_pmda_cpp.Pcp.{Pmapi}
use pcp_pmda_cpp.Exception.{Result, or_out_of_range, ◌>>=◌}

-- metric_flags; `storable_metric` is its one flag.
abbrev pub storable_metric : ℕ
storable_metric = 0x1

-- `operator|` on metric_flags.
unfoldable pub or_flags : ℕ → ℕ → ℕ
or_flags a b = bit_or a b

-- The struct. A pointer to an instance domain is an address, and NULL is `none`; units and the
-- opaque pointer (0 is NULL) are words that are only passed on.
pub record MetricDescription : Type 0 where
  pub metric_name : Text
  pub type : ℕ
  pub semantic : ℕ
  pub units : ℕ
  pub domain : Option ℕ
  pub short_description : Text
  pub verbose_description : Text
  pub opaque : ℕ
  pub flags : ℕ

-- The constructor, its arguments in the order of the source.
unfoldable pub metric_description :
    Text → ℕ → ℕ → ℕ → Option ℕ → Text → Text → ℕ → ℕ → MetricDescription
metric_description name t sem u dom short verbose o fl = record {
  metric_name = name;
  type = t;
  semantic = sem;
  units = u;
  domain = dom;
  short_description = short;
  verbose_description = verbose;
  opaque = o;
  flags = fl;
}

-- pmDesc.
pub record PmDesc : Type 0 where
  pub indom : ℕ
  pub pmid : ℕ
  pub sem : ℕ
  pub type : ℕ
  pub units : ℕ

-- `operator pmDesc`
unfoldable pub to_pm_desc : Pmapi → MetricDescription → PmDesc
to_pm_desc api d = record {
  indom = api.indom_null;
  pmid = 0;
  sem = d.semantic;
  type = d.type;
  units = d.units;
}

pub record MetricCluster : Type 0 where
  pub metrics : Map ℕ MetricDescription
  pub cluster_id : ℕ
  pub cluster_name : Text

unfoldable pub metric_cluster : ℕ → Text → MetricCluster
metric_cluster id name = record { metrics = []; cluster_id = id; cluster_name = name }

-- The iterator `most_recent_cluster` is the key that it stands at; `end()` is `none`.
pub record MetricsDescription : Type 0 where
  pub clusters : Map ℕ MetricCluster
  pub most_recent_cluster : Option ℕ

unfoldable pub metrics_description : MetricsDescription
metrics_description = record { clusters = []; most_recent_cluster = none }

-- `metrics.at(cluster).at(item)`
unfoldable pub at_metric : ℕ → ℕ → MetricsDescription → Result MetricDescription
at_metric c i m = do
  cluster ← or_out_of_range (find c m.clusters)
  or_out_of_range (find i cluster.metrics)
