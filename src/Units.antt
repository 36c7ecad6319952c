-- ===== src/Units.antt =====
-- include/pcp-cpp/units.hpp.
use pcp_pmda_cpp.Base.{ℕ}
use pcp_pmda_cpp.Base.Int.{ℤ}
use pcp_pmda_cpp.Pcp.{Pmapi}

unfoldable pub units : Pmapi → ℤ → ℤ → ℤ → ℕ → ℕ → ℤ → ℕ
units api a b c d e f = api.pmda_pmunits a b c d e f
