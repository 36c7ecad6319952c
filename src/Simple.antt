-- ===== src/Simple.antt =====
-- example/simple/simple.cpp: an agent with metrics that can be stored.
pub mod Defs
pub mod Colour
pub mod Times
pub mod TimeNow
pub mod CacheEffects
pub mod TimeSlices
pub mod Configured
pub mod BeginFetch
pub mod Metrics
pub mod Frame
pub mod Agent
pub mod Now
pub mod Invariant
pub mod Served
pub mod InBounds
pub mod Typed
pub mod Program
pub mod NowServed
pub mod ColourServed
pub mod ColourRefused
