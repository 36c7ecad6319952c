-- ===== src/Version.antt =====
-- get_pcp_runtime_version of include/pcp-cpp/config.hpp.
pub mod Defs
pub mod Digits
pub mod RoundTrip
