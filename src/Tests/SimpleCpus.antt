-- ===== src/Tests/SimpleCpus.antt =====
-- The example agent simplecpu.
use mathlib.Core.Option
use pcp_pmda_cpp.Base.{
  ℕ, ◌≡◌, ◌≢◌, refl, arith, Text, codes, List, [], ◌∷◌, All, get_elem?, none, some, is_space,
}
use pcp_pmda_cpp.Pcp.{pcp4, pcp4-PmidLaws, pcp4_types-IsAscending}
use pcp_pmda_cpp.Exception.{Result, ok}
use pcp_pmda_cpp.Metrics.Defs.{MetricsDescription}
use pcp_pmda_cpp.Metrics.Lookup.{lookup}
use pcp_pmda_cpp.Atom.Defs.{ull}
use pcp_pmda_cpp.Pmda.State.{Pmda, notify, at_position, log_debug}
use pcp_pmda_cpp.Pmda.Fetch.{PmdaMetric, on_fetch_callback}
use pcp_pmda_cpp.Base.Streams.{getlines}
use pcp_pmda_cpp.SimpleCpu.Stat.{
  CpuInfo, skip_spaces, read_digits, read_signed, read_ticks, parse_lines,
}
use pcp_pmda_cpp.SimpleCpu.Reading.{Reads, read_ticks-Reads}
use pcp_pmda_cpp.SimpleCpu.RoundTrip.{
  StatLine, processor, other, IsStatLine, stat_text, told, parse_lines-stat_text,
}
use pcp_pmda_cpp.SimpleCpu.Defs.{
  SimpleCpu, get_supported_metrics, new_simple_cpu, begin_fetch_values, simple_cpu,
}
use pcp_pmda_cpp.SimpleCpu.Metrics.{cpu_metric, get_supported_metrics-lookup}
use pcp_pmda_cpp.SimpleCpu.Fetched.{begun, on_fetch_callback-gone}
use pcp_pmda_cpp.Base.Int.{ℤ, pos}
use pcp_pmda_cpp.Pmda.Init.{initialize_pmda}
use pcp_pmda_cpp.Pmda.LifeCycle.{Process}
use pcp_pmda_cpp.Pmda.Callbacks.{set_callbacks}
use pcp_pmda_cpp.Pmda.Serving.{Request, profile, fetch, Serves, idle, next}
use pcp_pmda_cpp.SimpleCpu.Program.{simplecpu_init}
use pcp_pmda_cpp.SimpleCpu.Served.{simplecpu_init-tick}
use pcp_pmda_cpp.Tests.Requests.{defaults}
use pcp_pmda_cpp.Tests.Atoms.{whole_floats}
use pcp_pmda_cpp.Tests.Fixtures.{config, fresh}

read_ticks-Reads_example : Reads (codes " 10 20x") (read_ticks 8 (codes " 10 20x"))
read_ticks-Reads_example = read_ticks-Reads 8 (codes " 10 20x") (omega arith)

abbrev lines : List StatLine
lines =
    processor [] 1 (7 ∷ 8 ∷ [])
    ∷ processor (codes "0") 0 (3 ∷ 18446744073709551615 ∷ [])
    ∷ other (codes "intr 5")
    ∷ []

lines-IsStatLine : All IsStatLine lines
lines-IsStatLine = ground arith

parse_lines-stat_text_example : parse_lines (getlines (stat_text lines)) ≡ told lines
parse_lines-stat_text_example = parse_lines-stat_text lines lines-IsStatLine

-- Two processors, then one.
abbrev two : Text
two = codes "cpu  1 2\ncpu0 1 2\n"

abbrev one : Text
one = codes "cpu  4 5\n"

abbrev total : CpuInfo
total = record { label = codes "cpu"; ticks = 4 ∷ 5 ∷ [] }

abbrev agent : Pmda SimpleCpu
agent = fresh (record { cpu_info = total ∷ [] })

abbrev mdesc : ℕ → PmdaMetric
mdesc i = record {
  m_user = 0;
  m_desc = record { indom = 0; pmid = pcp4.pmda_pmid 0 i; sem = 0; type = 0; units = 0 };
}

get_supported_metrics-lookup_example :
    (m : MetricsDescription) × (get_supported_metrics pcp4 24 agent ≡ (ok m, agent))
    × ((i : ℕ) → lookup 0 i m ≡ Option.map (cpu_metric pcp4 24 i) (get_elem? (total ∷ []) i))
    × ((c i : ℕ) → c ≢ 0 → lookup c i m ≡ none)
get_supported_metrics-lookup_example = get_supported_metrics-lookup pcp4 24 agent

abbrev outside : Process SimpleCpu
outside = record { instance_ = none; freed = []; process_log = [] }

abbrev loaded : Result (Unit {0}) × Process SimpleCpu
loaded =
    simplecpu_init whole_floats config pcp4 (codes "out_of_range") (λ t i. i) 24 (some two) 7
      (pos 0) agent outside

abbrev ready : Pmda SimpleCpu
ready =
    (initialize_pmda pcp4 (simple_cpu whole_floats pcp4 24 (some two)) (λ t i. i)
      (new_simple_cpu pcp4 24 (some two) agent).1).1

-- Once more with the text that was there, then with the other one.
abbrev asked : List (Request × Result ℤ)
asked = (fetch [], ok (pos 0)) ∷ (profile 5, ok (pos 0)) ∷ (fetch [], ok (pos 0)) ∷ []

abbrev ended : Process SimpleCpu
ended = record outside { instance_ = some (begin_fetch_values pcp4 (some one) ready).1 }

served : Serves config pcp4 defaults (simple_cpu whole_floats pcp4 24) loaded.1 asked ended
unfolding simplecpu_init set_callbacks simple_cpu
served = next (some two) refl refl (next (some two) refl refl (next (some one) refl refl idle))

simplecpu_init-tick_example :
    (s : Pmda SimpleCpu) × (ended.instance_ ≡ some s)
    × (on_fetch_callback config pcp4
          (simple_cpu whole_floats pcp4 24 (some one))
          (mdesc 0)
          1
          (begin_fetch_values pcp4 (some one) s).1
        ≡ ((pcp4.fetch_static, some (ull 5)), (begin_fetch_values pcp4 (some one) s).1))
unfolding parse_lines getlines skip_spaces is_space read_digits read_signed
simplecpu_init-tick_example =
    simplecpu_init-tick whole_floats pcp4 24 pcp4-PmidLaws pcp4_types-IsAscending config defaults
      (codes "out_of_range") (λ t i. i) 7 (pos 0) two one agent outside ended asked (mdesc 0) 0 1 5
      (record { label = codes "cpu"; ticks = 1 ∷ 2 ∷ [] }) total refl (omega arith) (omega arith)
      refl (omega arith) refl (omega arith) (omega arith) refl refl refl served

on_fetch_callback-gone_example :
    on_fetch_callback config pcp4
      (simple_cpu whole_floats pcp4 24 (some one))
      (mdesc 1)
      1
      (begun whole_floats pcp4 24 (λ t i. i) two one agent)
    ≡ (
      (pcp4.err_pmid, none),
      notify (at_position log_debug) (begun whole_floats pcp4 24 (λ t i. i) two one agent),
    )
unfolding parse_lines getlines skip_spaces is_space read_digits read_signed
on_fetch_callback-gone_example =
    on_fetch_callback-gone whole_floats pcp4 24 (λ t i. i) pcp4-PmidLaws config two one agent
      (mdesc 1) 1 1 (record { label = codes "cpu0"; ticks = 1 ∷ 2 ∷ [] }) refl (omega arith) refl
      (omega arith) (omega arith) refl refl
