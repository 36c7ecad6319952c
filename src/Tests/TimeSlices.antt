-- ===== src/Tests/TimeSlices.antt =====
-- The time slices of the example agent simple.
use pcp_pmda_cpp.Base.{
  ℕ, ◌+◌, ◌==◌, ◌≡◌, refl, arith, if◌then◌else◌, Text, codes, [], ◌∷◌, Option, none, some, length,
}
use pcp_pmda_cpp.Base.Int.{ℤ, pos, negsuc}
use pcp_pmda_cpp.Pcp.{pcp4}
use pcp_pmda_cpp.Exception.{ok}
use pcp_pmda_cpp.Cache.Defs.{CacheLibrary}
use pcp_pmda_cpp.Map.{nat_ord}
use pcp_pmda_cpp.Pmda.State.{Pmda}
use pcp_pmda_cpp.Simple.TimeNow.{Os, failed, found, State, begin_fetch_values}
use pcp_pmda_cpp.Simple.CacheEffects.{op_done}
use pcp_pmda_cpp.Simple.TimeSlices.{Accepts}
use pcp_pmda_cpp.Simple.BeginFetch.{Begun, begin_fetch_values-Begun, begin_fetch_values-restored}
use pcp_pmda_cpp.Tests.Atoms.{whole_floats}
use pcp_pmda_cpp.Tests.Cache.{Entries, library}
use pcp_pmda_cpp.Tests.Fixtures.{fresh}

abbrev by_id : ℤ → Entries → ℤ × Option Text × ℕ
by_id (negsuc n) es = (negsuc 12359, none, 0)
by_id (pos n) [] = (negsuc 12359, none, 0)
by_id (pos n) (e ∷ es) =
    let later = by_id (pos n) es in
    if length es == n then (pcp4.cache_active, some e.0, e.1) else later

abbrev pub cache : CacheLibrary Entries
cache = record library { cache_lookup = λ indom id c. by_id id c }

pub cache-Accepts : Accepts cache
cache-Accepts = record { op_nonneg = λ d o c. refl; store_nonneg = λ d f name o c. refl }

abbrev pub slice : ℕ → ℕ
slice k = 1000 + k

abbrev pub os : Os
os = record {
  stat = found (pos 7, pos 0);
  config = some (codes "hour,,week,sec\n");
  tm_sec = pos 5;
  tm_min = pos 30;
  tm_hour = pos 12;
  error_text = λ e. codes "error";
}

abbrev gone : Os
gone = record os { stat = failed (pos 2) }

abbrev state : Pmda (State whole_floats Entries)
state = fresh (
  record { numfetch = 3; rgb = 0 ∷ 100 ∷ 200 ∷ []; oldfetch = 0; usr = pos 0; sys = pos 0 },
  record { cache = []; tm_field = λ p. pos 0; last_error = pos 0; file_change = (pos 0, pos 0) },
)

begin_fetch_values-Begun_example :
    (s' : Pmda (State whole_floats Entries)) × (begin_fetch_values whole_floats pcp4 cache 32 slice
        os state
      ≡ (ok tt, s'))
    × Begun whole_floats pcp4 cache 32 slice cache-Accepts os state s'
begin_fetch_values-Begun_example =
    begin_fetch_values-Begun whole_floats pcp4 cache 32 slice cache-Accepts (omega arith)
      (omega arith) (omega arith) os state

begin_fetch_values-restored_example :
    (t u : Pmda (State whole_floats Entries)) × (begin_fetch_values whole_floats pcp4 cache 32 slice
        gone state
      ≡ (ok tt, t))
    × (begin_fetch_values whole_floats pcp4 cache 32 slice
          (record os { stat = found (pos 0, pos 0) })
          t
        ≡ (ok tt, u))
    × (u.agent.1.cache ≡ op_done pcp4 cache slice pcp4.cache_inactive 0xffff_ffff [])
begin_fetch_values-restored_example =
    begin_fetch_values-restored whole_floats pcp4 cache 32 slice cache-Accepts (omega arith)
      (omega arith) (omega arith) gone (record os { stat = found (pos 0, pos 0) }) (pos 2) state
      refl refl
