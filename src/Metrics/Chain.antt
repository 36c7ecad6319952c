-- ===== src/Metrics/Chain.antt =====
-- Chains of calls that build a metrics_description (include/pcp-cpp/metric_description.hpp).
use pcp_pmda_cpp.Base.{ℕ, Text, List, [], ◌∷◌}
use pcp_pmda_cpp.Pcp.{Pmapi}
use pcp_pmda_cpp.Exception.{Result, ok, ◌>>=◌}
use pcp_pmda_cpp.Metrics.Defs.{MetricDescription, MetricsDescription}
use pcp_pmda_cpp.Metrics.MetricCall
use pcp_pmda_cpp.Metrics.MetricCall.{call_cluster}

-- One call of a chain such as `metrics_description()(0)(0, "numfetch", ...)`: a cluster, or a
-- metric with the texts of its description, by any of the three overloads.
pub data Form : Type 0 where
  flags_domain domain_flags domain_texts : Form

pub data Call : Type 0 where
  cluster : ℕ → Text → Call
  metric : Form → ℕ → MetricDescription → Call

call_metric : Pmapi → Form → ℕ → MetricDescription → MetricsDescription → Result MetricsDescription
call_metric api Form.flags_domain i d =
    MetricCall.flags_domain api i d.metric_name d.type d.semantic d.units d.flags d.domain
      d.short_description d.verbose_description d.opaque
call_metric api Form.domain_flags i d =
    MetricCall.domain_flags api i d.metric_name d.type d.semantic d.units d.domain d.flags
      d.short_description d.verbose_description d.opaque
call_metric api Form.domain_texts i d =
    MetricCall.domain_texts api i d.metric_name d.type d.semantic d.units d.domain
      d.short_description d.verbose_description d.opaque d.flags

unfoldable pub call : Pmapi → Call → MetricsDescription → Result MetricsDescription
unfolding call_cluster call_metric
call api (cluster id name) m = ok (call_cluster id name m)
call api (metric form i d) m = call_metric api form i d m

unfoldable pub chain : Pmapi → List Call → MetricsDescription → Result MetricsDescription
chain api [] m = ok m
chain api (c ∷ cs) m = do m' ← call api c m; chain api cs m'
