-- ===== src/Daemon.antt =====
-- include/pcp-cpp/pmda.hpp: the virtual run_daemon, with what it calls of libpcp_pmda in order.
pub mod Paths
pub mod Defs
pub mod Serves
pub mod Program
pub mod Exits
pub mod Ready
