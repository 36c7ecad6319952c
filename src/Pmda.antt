-- ===== src/Pmda.antt =====
-- include/pcp-cpp/pmda.hpp: the class pcp::pmda, its set-up and its callbacks.
pub mod State
pub mod BaseStore
pub mod Validate
pub mod Checked
pub mod Fetch
pub mod FetchLaws
pub mod Store
pub mod StoreOne
pub mod StoreLaws
pub mod HelpText
pub mod HelpTextLaws
pub mod Init
pub mod Rows
pub mod InitIndoms
pub mod InitLaws
pub mod Counts
pub mod InitTables
pub mod Registered
pub mod InitAgent
pub mod LifeCycle
pub mod Exit
pub mod Callbacks
pub mod Preserves
pub mod LetThrough
pub mod Typed
pub mod Agrees
pub mod Serving
pub mod Interface
pub mod Replays
