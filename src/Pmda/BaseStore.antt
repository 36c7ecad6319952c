-- ===== src/Pmda/BaseStore.antt =====
-- The base class's store_value, for an agent that does not override it (include/pcp-cpp/pmda.hpp).
use pcp_pmda_cpp.Base.{ℕ, []}
use pcp_pmda_cpp.Base.Int.{ℤ}
use pcp_pmda_cpp.Pcp.{Pmapi}
use pcp_pmda_cpp.Exception.{err, pcp, exception}
use pcp_pmda_cpp.Pmda.State.{Method, MetricId}

module _ {ℓ} {S : Type ℓ} (api : Pmapi) where
  unfoldable pub store_int : MetricId → ℤ → Method S (Unit {0})
  store_int id value s = (err (pcp (exception api api.err_permission [])), s)

  unfoldable pub store_block : MetricId → ℕ → Method S (Unit {0})
  store_block id value s = (err (pcp (exception api api.err_permission [])), s)
