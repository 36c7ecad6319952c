-- ===== src/Tests/Versions.antt =====
-- Versions of PCP.
use pcp_pmda_cpp.Base.{◌≡◌, ◌+◌, ◌*◌, ◌^◌, arith}
use pcp_pmda_cpp.Version.Defs.{numeric_version}
use pcp_pmda_cpp.Version.RoundTrip.{numeric_version-version_text, version_text}

numeric_version-version_text_example :
    numeric_version (version_text 3 12 2) ≡ (3 * 2 ^ 16) + (12 * 2 ^ 8) + 2
numeric_version-version_text_example =
    numeric_version-version_text 3 12 2 (omega arith) (omega arith) (omega arith)
