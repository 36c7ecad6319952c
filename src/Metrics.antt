-- ===== src/Metrics.antt =====
-- include/pcp-cpp/metric_description.hpp: metric descriptions, clusters of them, and the map of
-- clusters that an agent builds by a chain of calls.
pub mod Defs
pub mod ClusterCall
pub mod MetricCall
pub mod Chain
pub mod Lookup
pub mod Calls
pub mod Build
