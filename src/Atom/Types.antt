-- ===== src/Atom/Types.antt =====
-- include/pcp-cpp/types.hpp: type<T>(), the PM_TYPE_* constant of a C++ type.
use pcp_pmda_cpp.Base.{ℕ}
use pcp_pmda_cpp.Pcp.{AtomTypes}

-- The types with a specialisation.
pub data CppType : Type 0 where
  int8 int16 int32 int64 : CppType
  uint8 uint16 uint32 uint64 : CppType
  float double : CppType
  char_pointer std_string : CppType

unfoldable pub type : AtomTypes → CppType → ℕ
type t CppType.int8 = t.type_32
type t CppType.int16 = t.type_32
type t CppType.int32 = t.type_32
type t CppType.int64 = t.type_64
type t CppType.uint8 = t.type_u32
type t CppType.uint16 = t.type_u32
type t CppType.uint32 = t.type_u32
type t CppType.uint64 = t.type_u64
type t CppType.float = t.type_float
type t CppType.double = t.type_double
type t CppType.char_pointer = t.type_string
type t CppType.std_string = t.type_string
