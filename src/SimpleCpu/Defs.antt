-- ===== src/SimpleCpu/Defs.antt =====
-- The class simple_cpu (example/simplecpu/simplecpu.cpp).
use pcp_pmda_cpp.Base.{
  ℕ, suc, ◌==◌, if◌then◌else◌, Text, codes, List, [], ◌∷◌, get_elem?, Option, none, some,
}
use pcp_pmda_cpp.Base.Int.{pos}
use pcp_pmda_cpp.Pcp.{Pmapi}
use pcp_pmda_cpp.Units.{units}
use pcp_pmda_cpp.Exception.{Result, ok, err, pcp, exception, or_out_of_range, ◌>>=◌}
use pcp_pmda_cpp.InstanceDomain.{InstanceDomain, instance_domain, chain, domain, named}
use pcp_pmda_cpp.Metrics.Defs.{MetricsDescription, metrics_description}
use pcp_pmda_cpp.Metrics.MetricCall.{call_cluster, domain_texts}
use pcp_pmda_cpp.Atom.Types.{uint64, type}
use pcp_pmda_cpp.Atom.Defs.{Floats, Atom, integer, atom}
use pcp_pmda_cpp.Pmda.State.{Method, MetricId, FetchValueResult, Agent, static_result}
use pcp_pmda_cpp.Pmda.BaseStore.{store_int, store_block}
use pcp_pmda_cpp.Base.Streams.{getlines}
use pcp_pmda_cpp.SimpleCpu.Stat.{CpuInfo, parse_lines}

-- The member cpu_info; cpu_states is the domain at an address.
pub record SimpleCpu : Type 0 where
  pub cpu_info : List CpuInfo

-- cpu_states, as the constructor builds it.
unfoldable pub cpu_states : Pmapi → InstanceDomain
unfolding instance_domain chain
cpu_states api =
    chain api
      (domain 0
        ∷ named 0 (codes "user") [] []
        ∷ named 1 (codes "system") [] []
        ∷ named 2 (codes "idle") [] []
        ∷ named 3 (codes "iowait") [] []
        ∷ named 4 (codes "irq") [] []
        ∷ named 5 (codes "softirq") [] []
        ∷ named 6 (codes "steal") [] []
        ∷ named 7 (codes "guest") [] []
        ∷ named 8 (codes "guest_nice") [] []
        ∷ [])
      (instance_domain api api.indom_null)

-- `if (cpu_info.empty())`
abbrev pub not_empty : Pmapi → List CpuInfo → Result (Unit {0})
not_empty api [] = err (pcp (exception api api.err_nodata []))
not_empty api (_ ∷ _) = ok tt

-- `stat` is the text of /proc/stat, where it can be opened.
unfoldable pub load_cpu_ticks : Pmapi → Option Text → Method SimpleCpu (Unit {0})
unfolding getlines parse_lines
load_cpu_ticks api none s =
    (err (pcp (exception api api.err_nodata [])), record s { agent = record { cpu_info = [] } })
load_cpu_ticks api (some stat) s =
    let cpu_info = parse_lines (getlines stat) in
    (not_empty api cpu_info, record s { agent = record { cpu_info = cpu_info } })

-- The constructor, with `address` for that of cpu_states.
unfoldable pub new_simple_cpu : Pmapi → ℕ → Option Text → Method SimpleCpu (Unit {0})
unfolding load_cpu_ticks
new_simple_cpu api address stat s =
    load_cpu_ticks api stat
      (record s { heap = λ p. if p == address then cpu_states api else s.heap p })

unfoldable pub metric_name : ℕ → CpuInfo → Text
metric_name index info = if index == 0 then codes "total" else info.label

-- The loop of get_supported_metrics, from `index`; fewer than 2 ^ 32 processors are supposed.
unfoldable pub add_metrics :
    Pmapi → ℕ → ℕ → List CpuInfo → MetricsDescription → Result MetricsDescription
unfolding domain_texts units metric_name type
add_metrics api address index [] m = ok m
add_metrics api address index (info ∷ later) m = do
  m' ←
      domain_texts api index (metric_name index info) (type api.types uint64) api.sem_counter
        (units api (pos 0) (pos 0) (pos 1) 0 0 api.count_one) (some address)
        (codes "The amount of time spent in various states") [] 0 0 m
  add_metrics api address (suc index) later m'

unfoldable pub get_supported_metrics : Pmapi → ℕ → Method SimpleCpu MetricsDescription
unfolding add_metrics call_cluster metrics_description
get_supported_metrics api address s = (
  add_metrics api address 0 s.agent.cpu_info (call_cluster 0 (codes "ticks") metrics_description),
  s,
)

unfoldable pub begin_fetch_values : Pmapi → Option Text → Method SimpleCpu (Unit {0})
unfolding load_cpu_ticks
begin_fetch_values api stat s = load_cpu_ticks api stat s

-- `cpu_info.at(item).ticks.at(instance)`
abbrev pub tick_count : List CpuInfo → MetricId → Result ℕ
tick_count cpu_info id = do
  info ← or_out_of_range (get_elem? cpu_info id.item)
  or_out_of_range (get_elem? info.ticks id.instance_id)

unfoldable pub fetch_value :
    (fl : Floats) → Pmapi → MetricId → Method SimpleCpu (FetchValueResult (Atom fl))
unfolding static_result
fetch_value fl api id s = (
  static_result api
      (do ticks ← tick_count s.agent.cpu_info id; atom fl api id.type (integer (pos ticks))),
  s,
)

-- The virtual methods; `stat` is the text at the time of the call.
unfoldable pub simple_cpu : (fl : Floats) → Pmapi → ℕ → Option Text → Agent SimpleCpu (Atom fl)
unfolding get_supported_metrics begin_fetch_values fetch_value store_int store_block
simple_cpu fl api address stat = record {
  get_supported_metrics = get_supported_metrics api address;
  begin_fetch_values = begin_fetch_values api stat;
  fetch_value = fetch_value fl api;
  store_int = store_int api;
  store_block = store_block api;
}
