-- ===== src/Trivial.antt =====
-- example/trivial/trivial.cpp: an agent with one metric, the time.
pub mod Defs
pub mod Fetched
pub mod Served
pub mod Program
