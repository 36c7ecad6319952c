-- ===== src/Map.antt =====
-- std::map and std::set as the headers use them: entries in ascending order of their keys,
-- `insert` keeps the entry that is there, `at` throws where there is none.
mod Order
mod Defs
pub mod Lookup
pub mod Sorted
pub use Order.{Ord}
unfoldable pub use Order.{nat_ord, text_ord, text_ltb}
unfoldable pub use Defs.{Map, insert, inserted, find, count, update, size, keys}
