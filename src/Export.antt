-- ===== src/Export.antt =====
-- The private export_* methods of include/pcp-cpp/pmda.hpp, which write an agent's support files.
pub mod Files
pub mod Pmns
pub mod Help
pub mod HelpNames
pub mod HelpDomains
pub mod Columns
pub mod Groups
pub mod Support
