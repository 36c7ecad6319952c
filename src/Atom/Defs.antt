-- ===== src/Atom/Defs.antt =====
-- include/pcp-cpp/atom.hpp: the generic atom(), and the two specialisations for pointers.
use pcp_pmda_cpp.Base.{ℕ, ◌^◌, ◌==◌, ◌||◌, if◌then◌else◌, []}
use pcp_pmda_cpp.Base.Int.{ℤ}
use pcp_pmda_cpp.Pcp.{Pmapi}
use pcp_pmda_cpp.Exception.{Result, ok, err, pcp, exception}
use pcp_pmda_cpp.Atom.Words.{to_unsigned, to_signed}

-- The integer types of the members of pmAtomValue.
pub data IntType : Type 0 where
  int32_t : IntType
  uint32_t : IntType
  int64_t : IntType
  uint64_t : IntType

-- Floating-point numbers and their conversions, which C++ gives.
pub record Floats : Type 1 where
  pub Float : Type 0
  pub Double : Type 0
  pub float_of_int : ℤ → Float
  pub double_of_int : ℤ → Double
  pub float_of_double : Double → Float
  pub double_of_float : Float → Double
  -- What static_cast to an integer type gives: the integer towards zero, where the type has it.
  -- Elsewhere C++ leaves the conversion undefined, and so do these: nothing relies on their values.
  pub int_of_float : IntType → Float → ℤ
  pub int_of_double : IntType → Double → ℤ

module _ (fl : Floats) where
  -- pmAtomValue, a union, with the member that was set; pointers are addresses.
  pub data Atom : Type 0 where
    l : ℤ → Atom
    ul : ℕ → Atom
    ll : ℤ → Atom
    ull : ℕ → Atom
    f : fl.Float → Atom
    d : fl.Double → Atom
    cp : ℕ → Atom
    vbp : ℕ → Atom

  -- A value of a type that the generic atom() takes.
  pub data Value : Type 0 where
    integer : ℤ → Value
    float : fl.Float → Value
    double : fl.Double → Value

  -- The value on its way to a member of an integer type. There an integer wraps; a floating-point
  -- value whose conversion is defined is in the member's range, and stays.
  abbrev pub to_int : IntType → Value → ℤ
  to_int type (integer z) = z
  to_int type (float x) = fl.int_of_float type x
  to_int type (double x) = fl.int_of_double type x

  abbrev pub to_float : Value → fl.Float
  to_float (integer z) = fl.float_of_int z
  to_float (float x) = x
  to_float (double x) = fl.float_of_double x

  abbrev pub to_double : Value → fl.Double
  to_double (integer z) = fl.double_of_int z
  to_double (float x) = fl.double_of_float x
  to_double (double x) = x

  unfoldable pub atom : Pmapi → ℕ → Value → Result Atom
  atom api t v =
      if t == api.type_32
      then ok (l (to_signed (2 ^ 31) (to_int int32_t v)))
      else if t == api.type_u32
      then ok (ul (to_unsigned (2 ^ 32) (to_int uint32_t v)))
      else if t == api.type_64
      then ok (ll (to_signed (2 ^ 63) (to_int int64_t v)))
      else if t == api.type_u64
      then ok (ull (to_unsigned (2 ^ 64) (to_int uint64_t v)))
      else if t == api.type_float
      then ok (f (to_float v))
      else if t == api.type_double
      then ok (d (to_double v))
      else err (pcp (exception api api.err_type []))

  -- atom<char *>
  unfoldable pub atom_char_pointer : Pmapi → ℕ → ℕ → Result Atom
  atom_char_pointer api t v =
      if t == api.type_string then ok (cp v) else err (pcp (exception api api.err_type []))

  -- atom<pmValueBlock *>, with PM_TYPE_HIGHRES_EVENT (PCP 3.9.10 and later).
  unfoldable pub atom_value_block : Pmapi → ℕ → ℕ → Result Atom
  atom_value_block api t v =
      if t == api.type_aggregate
        || t == api.type_aggregate_static
        || t == api.type_event
        || t == api.type_highres_event
      then ok (vbp v)
      else err (pcp (exception api api.err_type []))
