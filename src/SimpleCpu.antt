-- ===== src/SimpleCpu.antt =====
-- example/simplecpu/simplecpu.cpp: an agent that reads the processor times of /proc/stat.
pub mod Stat
pub mod Defs
pub mod Reading
pub mod Bounds
pub mod Numbers
pub mod RoundTrip
pub mod Metrics
pub mod Ticks
pub mod Fetched
pub mod Program
pub mod Served
