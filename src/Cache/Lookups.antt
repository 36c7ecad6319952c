-- ===== src/Cache/Lookups.antt =====
-- What the lookups of include/pcp-cpp/cache.hpp return.
use pcp_pmda_cpp.Base.{
  ℕ, bit_and, ◌≡◌, refl, ◌↔◌, ◌⊎◌, inl, inr, false, true, arith, Text, c_str, Option, some, subst,
  [], none, Bool-cases, ◌^◌, ◌++◌, codes, length, decimal,
}
use pcp_pmda_cpp.Base.Int.{ℤ, pos, is_neg, eq_ℤ_refl, eq_of_eq_ℤ, decimal_ℤ}
use pcp_pmda_cpp.Pcp.{Pmapi}
use pcp_pmda_cpp.Atom.Words.{to_signed}
use pcp_pmda_cpp.Exception.{Result, ok, err, pcp, exception}
use pcp_pmda_cpp.Cache.Defs.{
  CacheLibrary, LookupResult, require_active, to_instance_id, is_refused, checked, lookup_id,
  lookup_name, lookup_key, quoted, quoted_name, inactive_message,
}

-- The entry may be returned: it is active, or the caller does not require that.
pub IsAccepted : Pmapi → ℕ → ℤ → Type 0
IsAccepted api flags status = (bit_and flags require_active ≡ 0) ⊎ (status ≡ api.cache_active)

not_refused-IsAccepted :
    (api : Pmapi) (flags : ℕ) (status : ℤ)
    → (is_refused api flags status ≡ false) ↔ IsAccepted api flags status
unfolding is_refused IsAccepted
not_refused-IsAccepted api flags status =
    ground (arith, eq_of_eq_ℤ status api.cache_active, eq_ℤ_refl status)

-- What a lookup that found `r` with its status gives: the entry when it is accepted, and otherwise
-- an exception under the status, with libpcp's text or with the message.
pub data Outcome (api : Pmapi) (flags : ℕ) (message : Text) (r : LookupResult)
    : Result LookupResult → Type 0 where
  found :
      is_neg r.status ≡ false → IsAccepted api flags r.status → Outcome api flags message r (ok r)
  failed :
      is_neg r.status ≡ true → Outcome api flags message r (err (pcp (exception api r.status [])))
  inactive :
      is_neg r.status ≡ false
      → ¬ IsAccepted api flags r.status
      → Outcome api flags message r (err (pcp (exception api r.status message)))

-- A name that the library may have left out.
abbrev pub shown : Option Text → Text
shown none = codes "NULL"
shown (some name) = codes "\"" ++ name ++ codes "\""

quoted_name-shown : (o : Option Text) → quoted_name o ≡ shown o
unfolding quoted_name quoted
quoted_name-shown none = refl
quoted_name-shown (some name) = refl

pub checked-Outcome :
    (api : Pmapi) (flags : ℕ) (message : Text) (r : LookupResult)
    → Outcome api flags message r (checked api flags message r)
unfolding checked
checked-Outcome api flags message r = elim (Bool-cases (is_neg r.status)) [
  | inl n ↦ rw n (failed n)
  | inr n ↦ elim (Bool-cases (is_refused api flags r.status)) [
    | inl f ↦ rw (n, f) (inactive n (not_accepted f))
    | inr f ↦ rw (n, f) (found n ((not_refused-IsAccepted api flags r.status).0 f))
  ]
]
  where
    not_accepted : is_refused api flags r.status ≡ true → ¬ IsAccepted api flags r.status
    not_accepted f a = ground (arith, (not_refused-IsAccepted api flags r.status).1 a)

module _ {ℓ} {C : Type ℓ} (api : Pmapi) (lib : CacheLibrary C) where
  -- The three lookups give the entry that the library found, under the identifier that was asked
  -- for or that the library gave, unless the status is negative, or is not PMDA_CACHE_ACTIVE while
  -- require_active is set; then they throw the status as the error code. The message of an
  -- inactive entry names the domain, the identifier, and the name or NULL, the name, or the name
  -- and the key.
  pub lookup-Outcome :
      (indom flags : ℕ) (c : C) (id : ℕ) (name key : Text)
      → let (status, found_name, opaque) = lib.cache_lookup indom (to_signed (2 ^ 31) (pos id)) c in
        let (status_n, id_n, opaque_n) = lib.cache_lookup_name indom (c_str name) c in
        let (status_k, name_k, id_k, opaque_k) =
          lib.cache_lookup_key indom (c_str name) (length key) key c in
        Outcome api flags
          (codes "Cache entry "
            ++ decimal indom
            ++ codes ":"
            ++ decimal id
            ++ codes " ("
            ++ shown found_name
            ++ codes ") inactive")
          (record { name = found_name; instance_id = id; opaque = opaque; status = status })
          (lookup_id api lib indom id flags c)
        × Outcome api flags
            (codes "Cache entry "
              ++ decimal indom
              ++ codes ":"
              ++ decimal_ℤ id_n
              ++ codes " ("
              ++ shown (some name)
              ++ codes ") inactive")
            (record {
              name = none;
              instance_id = to_instance_id id_n;
              opaque = opaque_n;
              status = status_n;
            })
            (lookup_name api lib indom name flags c)
        × Outcome api flags
            (codes "Cache entry "
              ++ decimal indom
              ++ codes ":"
              ++ decimal_ℤ id_k
              ++ codes " ("
              ++ (shown (some name) ++ codes ":" ++ shown (some key))
              ++ codes ") inactive")
            (record {
              name = name_k;
              instance_id = to_instance_id id_k;
              opaque = opaque_k;
              status = status_k;
            })
            (lookup_key api lib indom name key flags c)
  unfolding lookup_id lookup_name lookup_key inactive_message quoted
  lookup-Outcome indom flags c id name key =
      let (status, found_name, opaque) = lib.cache_lookup indom (to_signed (2 ^ 31) (pos id)) c in
      let r : LookupResult = record {
        name = found_name;
        instance_id = id;
        opaque = opaque;
        status = status;
      } in
      (
        subst
            (λ t.
              Outcome api flags
                (codes "Cache entry "
                  ++ decimal indom
                  ++ codes ":"
                  ++ decimal id
                  ++ codes " ("
                  ++ t
                  ++ codes ") inactive")
                r (lookup_id api lib indom id flags c))
            (quoted_name-shown found_name) (checked-Outcome api flags _ r),
        checked-Outcome api flags _ _,
        checked-Outcome api flags _ _,
      )
