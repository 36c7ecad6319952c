-- ===== src/SimpleCpu/Ticks.antt =====
-- fetch_value of simple_cpu (example/simplecpu/simplecpu.cpp).
use pcp_pmda_cpp.Base.{ℕ, ◌<◌, ◌^◌, ◌≡◌, refl, arith, List, get_elem?, none, some}
use pcp_pmda_cpp.Base.Int.{pos}
use pcp_pmda_cpp.Pcp.{Pmapi, IsAscending}
use pcp_pmda_cpp.Exception.{ok, err, out_of_range}
use pcp_pmda_cpp.Atom.Words.{to_unsigned_id}
use pcp_pmda_cpp.Atom.Defs.{Floats, integer, ull, atom}
use pcp_pmda_cpp.Pmda.State.{Pmda, MetricId, static_result}
use pcp_pmda_cpp.SimpleCpu.Stat.{CpuInfo}
use pcp_pmda_cpp.SimpleCpu.Defs.{SimpleCpu, fetch_value, tick_count}

pub tick_count-ok :
    (cpu_info : List CpuInfo) (id : MetricId) (info : CpuInfo) (n : ℕ)
    → get_elem? cpu_info id.item ≡ some info
    → get_elem? info.ticks id.instance_id ≡ some n
    → tick_count cpu_info id ≡ ok n
tick_count-ok cpu_info id info n e f = rw (e, f) refl

pub tick_count-gone :
    (cpu_info : List CpuInfo) (id : MetricId)
    → get_elem? cpu_info id.item ≡ none
    → tick_count cpu_info id ≡ err out_of_range
tick_count-gone cpu_info id e = rw e refl

module _ (fl : Floats) (api : Pmapi) where
  atom-u64 :
      IsAscending api.types
      → (n : ℕ) → n < 2 ^ 64
      → atom fl api api.type_u64 (integer (pos n)) ≡ ok (ull n)
  unfolding atom
  atom-u64 asc n h = ground (arith, to_unsigned_id (2 ^ 64) n h)

  pub fetch_value-tick :
      IsAscending api.types
      → (id : MetricId) (s : Pmda SimpleCpu) (n : ℕ) → id.type ≡ api.type_u64
      → tick_count s.agent.cpu_info id ≡ ok n
      → n < 2 ^ 64
      → fetch_value fl api id s ≡ (ok (record { atom = ull n; code = api.fetch_static }), s)
  unfolding fetch_value static_result
  fetch_value-tick asc id s n t e h = rw (e, t, atom-u64 asc n h) refl

  pub fetch_value-gone :
      (id : MetricId) (s : Pmda SimpleCpu)
      → tick_count s.agent.cpu_info id ≡ err out_of_range
      → fetch_value fl api id s ≡ (err out_of_range, s)
  unfolding fetch_value static_result
  fetch_value-gone id s e = rw e refl
