-- ===== src/Tests.antt =====
-- The theorems at concrete inputs, and runs of the model.
mod Fixtures
mod Metrics
mod Atoms
mod Callbacks
mod Agents
mod SimpleCpus
mod TimeSlices
mod Trivials
mod GetOpts
mod Serving
mod Cache
mod Daemon
mod Exports
mod Options
mod Versions
mod Init
mod Requests
mod Colours
mod Moments
