-- ===== src/Tests/Atoms.antt =====
-- Atoms of concrete values; a floating-point number is modelled by an integer.
use pcp_pmda_cpp.Base.{◌≡◌, refl, arith}
use pcp_pmda_cpp.Base.Int.{ℤ, negsuc}
use pcp_pmda_cpp.Pcp.{pcp4, pcp4_types, pcp4_types-IsAscending}
use pcp_pmda_cpp.Exception.{ok}
use pcp_pmda_cpp.Atom.Types.{CppType, type}
use pcp_pmda_cpp.Atom.Words.{to_unsigned}
use pcp_pmda_cpp.Atom.Defs.{Floats, ul, integer, atom}
use pcp_pmda_cpp.Atom.Convert.{Holds, atom-type}

abbrev pub whole_floats : Floats
whole_floats = record {
  Float = ℤ;
  Double = ℤ;
  float_of_int = λ z. z;
  double_of_int = λ z. z;
  float_of_double = λ z. z;
  double_of_float = λ z. z;
  int_of_float = λ t z. z;
  int_of_double = λ t z. z;
}

atom-type_example :
    Holds whole_floats
      (atom whole_floats pcp4 (type pcp4_types CppType.int8) (integer (negsuc 99)))
      (negsuc 99)
atom-type_example =
    atom-type whole_floats pcp4 pcp4_types-IsAscending CppType.int8 (negsuc 99) (omega arith)

-- -1 as a uint32_t.
atom_minus_one : atom whole_floats pcp4 1 (integer (negsuc 0)) ≡ ok (ul 0xffff_ffff)
unfolding atom to_unsigned
atom_minus_one = refl
