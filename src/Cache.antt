-- ===== src/Cache.antt =====
-- include/pcp-cpp/cache.hpp: the wrappers of the pmdaCache functions.
pub mod Defs
pub mod Lookups
