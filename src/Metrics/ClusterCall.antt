-- ===== src/Metrics/ClusterCall.antt =====
-- include/pcp-cpp/metric_description.hpp: the three overloads of metric_cluster::operator().
use pcp_pmda_cpp.Base.{ℕ, Text, Option}
use pcp_pmda_cpp.Map.{insert, nat_ord}
use pcp_pmda_cpp.Metrics.Defs.{MetricCluster, metric_description}

-- Flags then domain.
unfoldable pub flags_domain :
    ℕ → Text → ℕ → ℕ → ℕ → ℕ → Option ℕ → Text → Text → ℕ → MetricCluster → MetricCluster
flags_domain item name t sem u fl dom short verbose o c = record c {
  metrics = insert item (metric_description name t sem u dom short verbose o fl) c.metrics;
}

-- Domain then flags.
unfoldable pub domain_flags :
    ℕ → Text → ℕ → ℕ → ℕ → Option ℕ → ℕ → Text → Text → ℕ → MetricCluster → MetricCluster
domain_flags item name t sem u dom fl short verbose o c = record c {
  metrics = insert item (metric_description name t sem u dom short verbose o fl) c.metrics;
}

-- Domain, texts and opaque pointer, the flags last.
unfoldable pub domain_texts :
    ℕ → Text → ℕ → ℕ → ℕ → Option ℕ → Text → Text → ℕ → ℕ → MetricCluster → MetricCluster
domain_texts item name t sem u dom short verbose o fl c = record c {
  metrics = insert item (metric_description name t sem u dom short verbose o fl) c.metrics;
}
