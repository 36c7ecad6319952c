-- ===== src/Atom/Convert.antt =====
-- What atom() does to values (include/pcp-cpp/atom.hpp).
use pcp_pmda_cpp.Base.{ℕ, ◌-◌, ◌^◌, ◌<◌, ◌≡◌, ◌≢◌, arith, []}
use pcp_pmda_cpp.Base.Int.{ℤ, pos, negsuc, ◌≤ℤ◌}
use pcp_pmda_cpp.Pcp.{Pmapi, IsAscending}
use pcp_pmda_cpp.Exception.{Result, ok, err, pcp, exception}
use pcp_pmda_cpp.Atom.Types.{CppType, type}
use pcp_pmda_cpp.Atom.Words.{
  to_unsigned, to_unsigned_id, to_signed_id_32, to_signed_id_64, to_unsigned-lt_32,
  to_unsigned-lt_64, to_signed_range_32, to_signed_range_64,
}
use pcp_pmda_cpp.Atom.Defs.{
  Floats, Atom, l, ul, ll, ull, f, d, cp, vbp, Value, integer, int32_t, uint32_t, int64_t, uint64_t,
  to_int, atom,
}

-- The range of the values of an integer type; the other types have none.
abbrev pub InRange : CppType → ℤ → Type 0
InRange CppType.int8 z = (negsuc (2 ^ 7 - 1) ≤ℤ z) × (z ≤ℤ pos (2 ^ 7 - 1))
InRange CppType.int16 z = (negsuc (2 ^ 15 - 1) ≤ℤ z) × (z ≤ℤ pos (2 ^ 15 - 1))
InRange CppType.int32 z = (negsuc (2 ^ 31 - 1) ≤ℤ z) × (z ≤ℤ pos (2 ^ 31 - 1))
InRange CppType.int64 z = (negsuc (2 ^ 63 - 1) ≤ℤ z) × (z ≤ℤ pos (2 ^ 63 - 1))
InRange CppType.uint8 z = (pos 0 ≤ℤ z) × (z ≤ℤ pos (2 ^ 8 - 1))
InRange CppType.uint16 z = (pos 0 ≤ℤ z) × (z ≤ℤ pos (2 ^ 16 - 1))
InRange CppType.uint32 z = (pos 0 ≤ℤ z) × (z ≤ℤ pos (2 ^ 32 - 1))
InRange CppType.uint64 z = (pos 0 ≤ℤ z) × (z ≤ℤ pos (2 ^ 64 - 1))
InRange _ z = ⊥

module _ (fl : Floats) where
  -- The integer in the member that a reader of the atom's type takes.
  abbrev pub Holds : Result (Atom fl) → ℤ → Type 0
  Holds (ok (l z)) w = z ≡ w
  Holds (ok (ul n)) w = pos n ≡ w
  Holds (ok (ll z)) w = z ≡ w
  Holds (ok (ull n)) w = pos n ≡ w
  Holds _ w = ⊥

  to_unsigned_pos :
      (m : ℕ) (z : ℤ) → pos 0 ≤ℤ z → z ≤ℤ pos (m - 1) → 0 < m → pos (to_unsigned m z) ≡ z
  to_unsigned_pos m (pos n) lo hi h = ground (arith, to_unsigned_id m n)
  to_unsigned_pos m (negsuc n) lo hi h = absurd (omega arith)

  atom_int_32 :
      (api : Pmapi)
      → IsAscending api.types
      → (z : ℤ) → negsuc (2 ^ 31 - 1) ≤ℤ z
      → z ≤ℤ pos (2 ^ 31 - 1)
      → Holds (atom fl api api.type_32 (integer z)) z
  unfolding atom
  atom_int_32 api asc z lo hi = ground (arith, to_signed_id_32 z)

  atom_int_u32 :
      (api : Pmapi)
      → IsAscending api.types
      → (z : ℤ) → pos 0 ≤ℤ z
      → z ≤ℤ pos (2 ^ 32 - 1)
      → Holds (atom fl api api.type_u32 (integer z)) z
  unfolding atom
  atom_int_u32 api asc z lo hi = ground (arith, to_unsigned_pos (2 ^ 32) z)

  atom_int_64 :
      (api : Pmapi)
      → IsAscending api.types
      → (z : ℤ) → negsuc (2 ^ 63 - 1) ≤ℤ z
      → z ≤ℤ pos (2 ^ 63 - 1)
      → Holds (atom fl api api.type_64 (integer z)) z
  unfolding atom
  atom_int_64 api asc z lo hi = ground (arith, to_signed_id_64 z)

  atom_int_u64 :
      (api : Pmapi)
      → IsAscending api.types
      → (z : ℤ) → pos 0 ≤ℤ z
      → z ≤ℤ pos (2 ^ 64 - 1)
      → Holds (atom fl api api.type_u64 (integer z)) z
  unfolding atom
  atom_int_u64 api asc z lo hi = ground (arith, to_unsigned_pos (2 ^ 64) z)

  -- Where libpcp numbers its atom types apart, a value of any C++ integer type that has a
  -- specialisation of type<T>() goes into an atom of that type unchanged.
  pub atom-type :
      (api : Pmapi)
      → IsAscending api.types
      → (T : CppType) (z : ℤ) → InRange T z
      → Holds (atom fl api (type api.types T) (integer z)) z
  unfolding type
  atom-type api asc CppType.int8 z r = atom_int_32 api asc z (omega arith) (omega arith)
  atom-type api asc CppType.int16 z r = atom_int_32 api asc z (omega arith) (omega arith)
  atom-type api asc CppType.int32 z r = atom_int_32 api asc z r.0 r.1
  atom-type api asc CppType.int64 z r = atom_int_64 api asc z r.0 r.1
  atom-type api asc CppType.uint8 z r = atom_int_u32 api asc z r.0 (omega arith)
  atom-type api asc CppType.uint16 z r = atom_int_u32 api asc z r.0 (omega arith)
  atom-type api asc CppType.uint32 z r = atom_int_u32 api asc z r.0 r.1
  atom-type api asc CppType.uint64 z r = atom_int_u64 api asc z r.0 r.1
  atom-type api asc _ z r = elim r [ ]

  pub atom-u32 :
      (api : Pmapi)
      → IsAscending api.types
      → (z : ℤ) → atom fl api api.type_u32 (integer z) ≡ ok (ul (to_unsigned (2 ^ 32) z))
  unfolding atom
  atom-u32 api asc z = ground arith

  -- What a result of the generic atom() for type `t` may be.
  abbrev pub FitsType : Pmapi → ℕ → Result (Atom fl) → Type 0
  FitsType api t (ok (l z)) =
      (t ≡ api.type_32) × (negsuc (2 ^ 31 - 1) ≤ℤ z) × (z ≤ℤ pos (2 ^ 31 - 1))
  FitsType api t (ok (ul n)) = (t ≡ api.type_u32) × (n < 2 ^ 32)
  FitsType api t (ok (ll z)) =
      (t ≡ api.type_64) × (negsuc (2 ^ 63 - 1) ≤ℤ z) × (z ≤ℤ pos (2 ^ 63 - 1))
  FitsType api t (ok (ull n)) = (t ≡ api.type_u64) × (n < 2 ^ 64)
  FitsType api t (ok (f x)) = t ≡ api.type_float
  FitsType api t (ok (d x)) = t ≡ api.type_double
  FitsType api t (ok (cp p)) = ⊥
  FitsType api t (ok (vbp p)) = ⊥
  FitsType api t (err e) =
      (e ≡ pcp (exception api api.err_type []))
      × (t ≢ api.type_32)
      × (t ≢ api.type_u32)
      × (t ≢ api.type_64)
      × (t ≢ api.type_u64)
      × (t ≢ api.type_float)
      × (t ≢ api.type_double)

  -- The generic atom() sets the member of the type asked for, with a number in
  -- that member's range; for any other type than the six numeric ones it throws PM_ERR_TYPE.
  pub atom-FitsType : (api : Pmapi) (t : ℕ) (v : Value fl) → FitsType api t (atom fl api t v)
  unfolding atom
  atom-FitsType api t v = ground (
    arith,
    to_signed_range_32 (to_int fl int32_t v),
    to_unsigned-lt_32 (to_int fl uint32_t v),
    to_signed_range_64 (to_int fl int64_t v),
    to_unsigned-lt_64 (to_int fl uint64_t v),
  )
