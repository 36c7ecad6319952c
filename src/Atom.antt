-- ===== src/Atom.antt =====
-- include/pcp-cpp/types.hpp and include/pcp-cpp/atom.hpp: the atom type of a C++ type, and the
-- conversion of a value to an atom of a given type.
pub mod Types
pub mod Words
pub mod Defs
pub mod Convert
