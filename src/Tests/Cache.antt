-- ===== src/Tests/Cache.antt =====
-- A cache whose entries are all active, kept with the latest first, and lookups in it.
use pcp_pmda_cpp.Base.{
  ℕ, Text, text_eq, codes, List, [], ◌∷◌, none, length, c_str, if◌then◌else◌, decimal,
}
use pcp_pmda_cpp.Base.Int.{ℤ, pos, negsuc, decimal_ℤ}
use pcp_pmda_cpp.Pcp.{pcp4}
use pcp_pmda_cpp.Cache.Defs.{CacheLibrary, lookup_id, lookup_name, lookup_key, to_instance_id}
use pcp_pmda_cpp.Cache.Lookups.{Outcome, lookup-Outcome}

abbrev pub Entries : Type 0
Entries = List (Text × ℕ)

abbrev by_name : Text → Entries → ℤ × ℤ × ℕ
by_name name [] = (negsuc 12359, negsuc 0, 0)
by_name name (e ∷ es) =
    if text_eq name e.0 then (pcp4.cache_active, pos (length es), e.1) else by_name name es

abbrev pub library : CacheLibrary Entries
library = record {
  cache_lookup = λ indom id c. (negsuc 12359, none, 0);
  cache_lookup_name = λ indom name c. by_name name c;
  cache_lookup_key = λ indom name n key c. (negsuc 12359, none, negsuc 0, 0);
  cache_op = λ indom operation c. (pos (length c), c);
  cache_purge = λ indom recent c. (pos (length c), []);
  cache_store = λ indom flags name opaque c. (pos (length c), (name, opaque) ∷ c);
  cache_store_key = λ indom flags name n key opaque c. (pos (length c), (name, opaque) ∷ c);
}

lookup-Outcome_example :
    Outcome pcp4 1
      (codes "Cache entry 3:9 (NULL) inactive")
      (record { name = none; instance_id = 9; opaque = 0; status = negsuc 12359 })
      (lookup_id pcp4 library 3 9 1 ((codes "red", 7) ∷ []))
    × Outcome pcp4 1
        (codes "Cache entry 3:0 (\"red\") inactive")
        (record { name = none; instance_id = to_instance_id (pos 0); opaque = 7; status = pos 8 })
        (lookup_name pcp4 library 3 (codes "red") 1 ((codes "red", 7) ∷ []))
    × Outcome pcp4 1
        (codes "Cache entry 3:-1 (\"red\":\"\") inactive")
        (record {
          name = none;
          instance_id = to_instance_id (negsuc 0);
          opaque = 0;
          status = negsuc 12359;
        })
        (lookup_key pcp4 library 3 (codes "red") [] 1 ((codes "red", 7) ∷ []))
unfolding c_str decimal decimal_ℤ
lookup-Outcome_example = lookup-Outcome pcp4 library 3 1 ((codes "red", 7) ∷ []) 9 (codes "red") []
