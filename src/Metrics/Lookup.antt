-- ===== src/Metrics/Lookup.antt =====
-- The metric that a metrics_description holds at a cluster and an item
-- (include/pcp-cpp/metric_description.hpp).
use pcp_pmda_cpp.Base.{ℕ, ◌≡◌, Option, none, some, arith}
use pcp_pmda_cpp.Map.{find, nat_ord}
use pcp_pmda_cpp.Exception.{ok, err, out_of_range}
use pcp_pmda_cpp.Metrics.Defs.{MetricDescription, MetricsDescription, at_metric}

-- The metric at a cluster and an item, `none` where there is none.
unfoldable pub lookup : ℕ → ℕ → MetricsDescription → Option MetricDescription
lookup c i m = elim (find c m.clusters) [ none ↦ none | some k ↦ find i k.metrics ]

pub at_metric-lookup :
    (c i : ℕ) (m : MetricsDescription) (d : MetricDescription)
    → lookup c i m ≡ some d
    → at_metric c i m ≡ ok d
unfolding lookup at_metric
at_metric-lookup c i m d e = ground arith

pub at_metric-none :
    (c i : ℕ) (m : MetricsDescription) → lookup c i m ≡ none → at_metric c i m ≡ err out_of_range
unfolding lookup at_metric
at_metric-none c i m e = ground arith
