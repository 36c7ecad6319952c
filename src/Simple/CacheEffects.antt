-- ===== src/Simple/CacheEffects.antt =====
-- What the configuration file of the time slices is to do to the cache
-- (example/simple/simple.cpp).
use pcp_pmda_cpp.Base.{ℕ, is_empty, if◌then◌else◌, Text, c_str, List, [], ◌∷◌, Option, none, some}
use pcp_pmda_cpp.Base.Int.{ℤ}
use pcp_pmda_cpp.Base.Streams.{getlines, split_at}
use pcp_pmda_cpp.Pcp.{Pmapi}
use pcp_pmda_cpp.Cache.Defs.{CacheLibrary}
use pcp_pmda_cpp.Simple.TimeNow.{timeslices, slice_index}

-- The names in the first line of the file, where there is one.
abbrev pub names_of : List Text → Option (List Text)
names_of [] = none
names_of (line ∷ _) = some (split_at b',' line)

abbrev pub names_in : Option Text → Option (List Text)
names_in none = none
names_in (some text) = names_of (getlines text)

module _ {ℓ} {C : Type ℓ} (api : Pmapi) (lib : CacheLibrary C) (slice : ℕ → ℕ) where
  -- The names of time slices are put into the cache, in order; other names are not.
  abbrev pub stored_at : ℕ → Text → Option ℕ → C → C
  stored_at d name none c = c
  stored_at d name (some index) c = (lib.cache_store d api.cache_add (c_str name) (slice index) c).1

  abbrev pub all_stored : ℕ → List Text → C → C
  all_stored d [] c = c
  all_stored d (name ∷ names) c =
      all_stored d names
        (if is_empty name then c else stored_at d name (slice_index name 0 timeslices) c)

  abbrev pub op_done : ℤ → ℕ → C → C
  op_done o d c = (lib.cache_op d o c).1

  -- What timenow_init does to the cache.
  abbrev pub initialized : Option (List Text) → ℕ → C → C
  initialized none d c = c
  initialized (some names) d c = op_done api.cache_size_active d (all_stored d names c)
