-- ===== src/Cache/Defs.antt =====
-- include/pcp-cpp/cache.hpp, with the cache of libpcp_pmda as a parameter.
use pcp_pmda_cpp.Base.{
  ℕ, bit_and, bit_or, Bool, not, ◌&&◌, ◌==◌, if◌then◌else◌, Text, codes, c_str, length, [], ◌++◌,
  Option, none, some, decimal, ◌^◌,
}
use pcp_pmda_cpp.Base.Int.{ℤ, pos, is_neg, eq_ℤ, decimal_ℤ}
use pcp_pmda_cpp.Pcp.{Pmapi}
use pcp_pmda_cpp.Atom.Words.{to_unsigned, to_signed}
use pcp_pmda_cpp.Exception.{Result, ok, err, pcp, exception}

-- lookup_flags and its one flag.
abbrev pub require_active : ℕ
require_active = 0x1

-- `operator|` on lookup_flags.
unfoldable pub or_lookup_flags : ℕ → ℕ → ℕ
or_lookup_flags a b = bit_or a b

-- lookup_result_type: a NULL name is `none`, and the opaque pointer is a word.
pub record LookupResult : Type 0 where
  pub name : Option Text
  pub instance_id : ℕ
  pub opaque : ℕ
  pub status : ℤ

-- The cache in libpcp_pmda. `C` is its contents; a lookup gives its status and what it writes
-- through its pointer arguments, the others their result and the contents after the call.
pub record CacheLibrary {ℓ} (C : Type ℓ) : Type ℓ where
  -- pmdaCacheLookup: the name and the opaque pointer.
  pub cache_lookup : ℕ → ℤ → C → ℤ × Option Text × ℕ
  -- pmdaCacheLookupName: the identifier and the opaque pointer.
  pub cache_lookup_name : ℕ → Text → C → ℤ × ℤ × ℕ
  -- pmdaCacheLookupKey, with the length of the key: the name, the identifier, the pointer.
  pub cache_lookup_key : ℕ → Text → ℕ → Text → C → ℤ × Option Text × ℤ × ℕ
  pub cache_op : ℕ → ℤ → C → ℤ × C
  pub cache_purge : ℕ → ℤ → C → ℤ × C
  pub cache_store : ℕ → ℤ → Text → ℕ → C → ℤ × C
  pub cache_store_key : ℕ → ℤ → Text → ℕ → Text → ℕ → C → ℤ × C

-- The conversion of an int to instance_id_type, which is unsigned.
abbrev pub to_instance_id : ℤ → ℕ
to_instance_id id = to_unsigned (2 ^ 32) id

-- `(flags & require_active) && (status != PMDA_CACHE_ACTIVE)`
unfoldable pub is_refused : Pmapi → ℕ → ℤ → Bool
is_refused api flags status =
    not (bit_and flags require_active == 0) && not (eq_ℤ status api.cache_active)

-- What is thrown for an entry that is refused; `which` says which one it is, and the identifier
-- is already written out.
unfoldable pub inactive_message : ℕ → Text → Text → Text
inactive_message indom instance_id which =
    codes "Cache entry "
    ++ decimal indom
    ++ codes ":"
    ++ instance_id
    ++ codes " ("
    ++ which
    ++ codes ") inactive"

unfoldable pub quoted : Text → Text
quoted s = codes "\"" ++ s ++ codes "\""

unfoldable pub quoted_name : Option Text → Text
unfolding quoted
quoted_name none = codes "NULL"
quoted_name (some name) = quoted name

-- The two tests that each lookup makes of its result before it returns it.
unfoldable pub checked : Pmapi → ℕ → Text → LookupResult → Result LookupResult
checked api flags message r =
    if is_neg r.status
    then err (pcp (exception api r.status []))
    else if is_refused api flags r.status
    then err (pcp (exception api r.status message))
    else ok r

module _ {ℓ} {C : Type ℓ} (api : Pmapi) (lib : CacheLibrary C) where
  -- lookup(indom, instance_id, flags).
  unfoldable pub lookup_id : ℕ → ℕ → ℕ → C → Result LookupResult
  lookup_id indom id flags c =
      let (status, name, opaque) = lib.cache_lookup indom (to_signed (2 ^ 31) (pos id)) c in
      checked api flags (inactive_message indom (decimal id) (quoted_name name))
        (record { name = name; instance_id = id; opaque = opaque; status = status })

  -- lookup(indom, name, flags); the result has no name.
  unfoldable pub lookup_name : ℕ → Text → ℕ → C → Result LookupResult
  lookup_name indom name flags c =
      let (status, id, opaque) = lib.cache_lookup_name indom (c_str name) c in
      checked api flags (inactive_message indom (decimal_ℤ id) (quoted name))
        (record { name = none; instance_id = to_instance_id id; opaque = opaque; status = status })

  -- lookup(indom, name, key, flags).
  unfoldable pub lookup_key : ℕ → Text → Text → ℕ → C → Result LookupResult
  lookup_key indom name key flags c =
      let (status, found, id, opaque) =
        lib.cache_lookup_key indom (c_str name) (length key) key c in
      checked api flags
        (inactive_message indom (decimal_ℤ id) (quoted name ++ codes ":" ++ quoted key))
        (record { name = found; instance_id = to_instance_id id; opaque = opaque; status = status })

  -- A negative result is thrown, any other returned as `convert` makes it.
  unfoldable pub thrown_if_neg {κ} : {A : Type κ} → (ℤ → A) → ℤ × C → Result A × C
  thrown_if_neg convert (result, c) =
      (if is_neg result then err (pcp (exception api result [])) else ok (convert result), c)

  unfoldable pub perform : ℕ → ℤ → C → Result ℤ × C
  perform indom operation c = thrown_if_neg (λ n. n) (lib.cache_op indom operation c)

  unfoldable pub purge : ℕ → ℤ → C → Result ℕ × C
  purge indom recent c = thrown_if_neg (to_unsigned (2 ^ 64)) (lib.cache_purge indom recent c)

  -- purge of a boost time_duration.
  unfoldable pub purge_duration {κ} : {D : Type κ} → (D → ℤ) → ℕ → D → C → Result ℕ × C
  unfolding purge
  purge_duration total_seconds indom recent c = purge indom (total_seconds recent) c

  -- store(indom, name, flags, opaque).
  unfoldable pub store_flags : ℕ → Text → ℤ → ℕ → C → Result ℕ × C
  store_flags indom name flags opaque c =
      thrown_if_neg to_instance_id (lib.cache_store indom flags (c_str name) opaque c)

  -- store(indom, name, opaque, flags).
  unfoldable pub store_opaque : ℕ → Text → ℕ → ℤ → C → Result ℕ × C
  store_opaque indom name opaque flags c =
      thrown_if_neg to_instance_id (lib.cache_store indom flags (c_str name) opaque c)

  -- store(indom, name, key, flags, opaque).
  unfoldable pub store_key_flags : ℕ → Text → Text → ℤ → ℕ → C → Result ℕ × C
  store_key_flags indom name key flags opaque c =
      thrown_if_neg to_instance_id
        (lib.cache_store_key indom flags (c_str name) (length key) key opaque c)

  -- store(indom, name, key, opaque, flags).
  unfoldable pub store_key_opaque : ℕ → Text → Text → ℕ → ℤ → C → Result ℕ × C
  store_key_opaque indom name key opaque flags c =
      thrown_if_neg to_instance_id
        (lib.cache_store_key indom flags (c_str name) (length key) key opaque c)
