-- ===== src/CommandLine.antt =====
-- The command line of include/pcp-cpp/pmda.hpp, in the build with boost::program_options, and in the one without (GetOpt).
pub mod Defs
pub mod Checks
pub mod Parse
pub mod Conflicts
pub mod Returns
pub mod Exports
pub mod Accepted
pub mod GetOpt
pub mod Described
