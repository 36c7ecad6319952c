-- ===== src/SimpleCpu/Fetched.antt =====
-- simple_cpu from its constructor to a fetch (example/simplecpu/simplecpu.cpp, on
-- include/pcp-cpp/pmda.hpp).
use mathlib.Core.Option
use pcp_pmda_cpp.Base.{
  ℕ, ◌<◌, ◌≤◌, ◌^◌, ◌≡◌, ◌≢◌, refl, ap, ◌∙◌, arith, true, false, is_some, Text, List, get_elem?,
  none, some,
}
use pcp_pmda_cpp.Map.{find, nat_ord}
use pcp_pmda_cpp.Pcp.{Pmapi, PmidLaws, IsAscending}
use pcp_pmda_cpp.Exception.{ok, out_of_range}
use pcp_pmda_cpp.InstanceDomain.Instances.{find-chain}
use pcp_pmda_cpp.Metrics.Lookup.{lookup}
use pcp_pmda_cpp.Atom.Defs.{Floats, ull}
use pcp_pmda_cpp.Pmda.State.{Config, Pmda, MetricId, notify, at_position, log_debug}
use pcp_pmda_cpp.Pmda.Validate.{IsInstanceOf}
use pcp_pmda_cpp.Pmda.Checked.{caught}
use pcp_pmda_cpp.Pmda.Fetch.{PmdaMetric, on_fetch_callback}
use pcp_pmda_cpp.Pmda.FetchLaws.{metric_id, on_fetch_callback-registered, on_fetch_callback-thrown}
use pcp_pmda_cpp.Pmda.InitAgent.{initialize_pmda-agent}
use pcp_pmda_cpp.Pmda.Init.{Tables, initialize_pmda}
use pcp_pmda_cpp.Pmda.Registered.{recorded-instances, initialize_pmda-registers}
use pcp_pmda_cpp.Base.Streams.{getlines}
use pcp_pmda_cpp.SimpleCpu.Stat.{CpuInfo, parse_lines}
use pcp_pmda_cpp.SimpleCpu.Bounds.{All-get_elem?, parse_lines-AllFit}
use pcp_pmda_cpp.SimpleCpu.Defs.{
  SimpleCpu, cpu_states, new_simple_cpu, load_cpu_ticks, begin_fetch_values, tick_count, simple_cpu,
}
use pcp_pmda_cpp.SimpleCpu.Ticks.{
  fetch_value-tick, fetch_value-gone, tick_count-ok, tick_count-gone,
}
use pcp_pmda_cpp.SimpleCpu.Metrics.{cpu_metric, get_supported_metrics-lookup}

-- The processors that a text of /proc/stat tells of.
abbrev pub processors : Text → List CpuInfo
processors stat = parse_lines (getlines stat)

module _ (fl : Floats) (api : Pmapi) (address : ℕ) (pmda_init : Tables → ℕ → ℕ) where
  -- The agent, constructed and set up while /proc/stat had one text, begins to fetch when it has
  -- another.
  abbrev pub begun : Text → Text → Pmda SimpleCpu → Pmda SimpleCpu
  begun stat stat' s =
      let constructed = (new_simple_cpu api address (some stat) s).1 in
      let ready =
        (initialize_pmda api (simple_cpu fl api address (some stat)) pmda_init constructed).1 in
      (begin_fetch_values api (some stat') ready).1

  cpu_states-find : (j : ℕ) → j < 9 → is_some (find j (cpu_states api).instances) ≡ true
  unfolding cpu_states
  cpu_states-find j h = rw (find-chain api _ api.indom_null j) (ground arith)

  -- What has been set up: the metrics of the first text, the states, the processors of the second.
  pub record IsBegun (stat stat' : Text) (s : Pmda SimpleCpu) : Type 0 where
    pub metrics :
        (i : ℕ)
        → lookup 0 i s.supported_metrics
          ≡ Option.map (cpu_metric api address i) (get_elem? (processors stat) i)
    pub states : (s.heap address).instances ≡ (cpu_states api).instances
    pub agent_is : s.agent ≡ record { cpu_info = processors stat' }

  pub fetching-IsBegun :
      (stat stat' : Text) (s : Pmda SimpleCpu)
      → ((i : ℕ)
          → lookup 0 i s.supported_metrics
            ≡ Option.map (cpu_metric api address i) (get_elem? (processors stat) i))
      → (s.heap address).instances ≡ (cpu_states api).instances
      → IsBegun stat stat' (begin_fetch_values api (some stat') s).1
  unfolding begin_fetch_values load_cpu_ticks
  fetching-IsBegun stat stat' s metrics states = record {
    metrics = metrics;
    states = states;
    agent_is = refl;
  }

  constructed-is :
      (stat : Text) (s : Pmda SimpleCpu)
      → ((new_simple_cpu api address (some stat) s).1.agent.cpu_info ≡ processors stat)
        × ((new_simple_cpu api address (some stat) s).1.heap address ≡ cpu_states api)
  unfolding new_simple_cpu load_cpu_ticks
  constructed-is stat s = (refl, ground arith)

  -- What the constructor and initialize_pmda leave.
  pub initialize_pmda-IsBegun :
      (stat : Text) (s : Pmda SimpleCpu)
      → let constructed = (new_simple_cpu api address (some stat) s).1 in
        let (r, ready) =
          initialize_pmda api (simple_cpu fl api address (some stat)) pmda_init constructed in
        ((t : Tables) × (r ≡ ok (some t))) × IsBegun stat stat ready
  unfolding simple_cpu
  initialize_pmda-IsBegun stat s =
      let constructed : Pmda SimpleCpu = (new_simple_cpu api address (some stat) s).1 in
      let agent = simple_cpu fl api address (some stat) in
      let (m, e, found, _) = get_supported_metrics-lookup api address constructed in
      let (t, ready, run, _, supported, heap, _) =
        initialize_pmda-registers api agent pmda_init constructed constructed m e in
      (
        (t, ap (λ x. x.0) run),
        record {
          metrics = λ i.
              ap (λ x. lookup 0 i x.1.supported_metrics) run
              ∙ ap (lookup 0 i) supported
              ∙ found i
              ∙ ap (λ x. Option.map (cpu_metric api address i) (get_elem? x i))
                  (constructed-is stat s).0;
          states =
              ap (λ x. (x.1.heap address).instances) run
              ∙ ap (λ d. d.instances) (heap address)
              ∙ recorded-instances (pmda_init t) 0 _ _
              ∙ ap (λ d. d.instances) (constructed-is stat s).1;
          agent_is =
              initialize_pmda-agent api agent pmda_init constructed constructed m e
              ∙ ap (λ c. record { cpu_info = c }) (constructed-is stat s).0;
        },
      )

  begun-IsBegun : (stat stat' : Text) (s : Pmda SimpleCpu) → IsBegun stat stat' (begun stat stat' s)
  begun-IsBegun stat stat' s =
      let (_, ready) = initialize_pmda-IsBegun stat s in
      fetching-IsBegun stat stat' _ ready.metrics ready.states

  module _ (stat stat' : Text) (s : Pmda SimpleCpu) (b : IsBegun stat stat' s) where
    begun-lookup :
        (i : ℕ) (info : CpuInfo)
        → get_elem? (processors stat) i ≡ some info
        → lookup 0 i s.supported_metrics ≡ some (cpu_metric api address i info)
    begun-lookup i info e = b.metrics i ∙ ap (Option.map (cpu_metric api address i)) e

    begun-IsInstanceOf :
        (j : ℕ) → j < 9 → j ≢ api.indom_null → IsInstanceOf api s.heap (some address) j
    begun-IsInstanceOf j h n = (n, ap (λ m. is_some (find j m)) b.states ∙ cpu_states-find j h)

    begun-tick_count :
        (id : MetricId) → tick_count s.agent.cpu_info id ≡ tick_count (processors stat') id
    begun-tick_count id = ap (λ a. tick_count a.cpu_info id) b.agent_is

    -- The fetch, of members that have begun to fetch.
    pub on_fetch_callback-begun :
        PmidLaws api
        → IsAscending api.types
        → (cfg : Config) (m : PmdaMetric) (i j n : ℕ) (info info' : CpuInfo)
        → cfg.no_id_validity_checks ≡ false
        → 4 ≤ cfg.interface_version
        → i < 2 ^ 10
        → m.m_desc.pmid ≡ api.pmda_pmid 0 i
        → j < 9
        → j ≢ api.indom_null
        → get_elem? (processors stat) i ≡ some info
        → get_elem? (processors stat') i ≡ some info'
        → get_elem? info'.ticks j ≡ some n
        → on_fetch_callback cfg api (simple_cpu fl api address (some stat')) m j s
          ≡ ((api.fetch_static, some (ull n)), s)
    unfolding simple_cpu
    on_fetch_callback-begun laws asc cfg m i j n info info' on v hi e hj hn had has tick =
        let id = metric_id 0 i j (cpu_metric api address i info) m.m_user in
        let small =
          All-get_elem? _ info'.ticks j n
            (All-get_elem? _ (processors stat') i info' (parse_lines-AllFit (getlines stat')) has)
            tick in
        on_fetch_callback-registered cfg api laws (simple_cpu fl api address (some stat')) 0 i j m s
          s (cpu_metric api address i info) (record { atom = ull n; code = api.fetch_static }) on v
          (omega arith) hi e (begun-lookup i info had) (begun-IsInstanceOf j hj hn)
          (fetch_value-tick fl api asc id s n refl
            (begun-tick_count id ∙ tick_count-ok (processors stat') id info' n has tick) small)

  -- An agent is constructed and set up while /proc/stat tells of the processor `i`, and begins to
  -- fetch when the text is another. Where that has `n` as the count of the processor in the state
  -- `j`, fetching the metric of the processor at that instance returns PMDA_FETCH_STATIC and `n`,
  -- with the checks compiled in and interface version 4 or later.
  pub on_fetch_callback-tick :
      PmidLaws api
      → IsAscending api.types
      → (cfg : Config) (stat stat' : Text) (s : Pmda SimpleCpu) (m : PmdaMetric) (i j n : ℕ)
        (info info' : CpuInfo)
      → cfg.no_id_validity_checks ≡ false
      → 4 ≤ cfg.interface_version
      → i < 2 ^ 10
      → m.m_desc.pmid ≡ api.pmda_pmid 0 i
      → j < 9
      → j ≢ api.indom_null
      → get_elem? (processors stat) i ≡ some info
      → get_elem? (processors stat') i ≡ some info'
      → get_elem? info'.ticks j ≡ some n
      → on_fetch_callback cfg api (simple_cpu fl api address (some stat')) m j (begun stat stat' s)
        ≡ ((api.fetch_static, some (ull n)), begun stat stat' s)
  on_fetch_callback-tick laws asc cfg stat stat' s =
      on_fetch_callback-begun stat stat' (begun stat stat' s) (begun-IsBegun stat stat' s) laws asc
        cfg

  -- An agent is set up in the same way, and when it begins to fetch the text no longer tells of
  -- the processor `i`: then fetching its metric, at any of the nine states, returns PM_ERR_PMID
  -- and no value, with the checks compiled in, and only the log changes.
  pub on_fetch_callback-gone :
      PmidLaws api
      → (cfg : Config) (stat stat' : Text) (s : Pmda SimpleCpu) (m : PmdaMetric) (i j : ℕ)
        (info : CpuInfo)
      → cfg.no_id_validity_checks ≡ false
      → i < 2 ^ 10
      → m.m_desc.pmid ≡ api.pmda_pmid 0 i
      → j < 9
      → j ≢ api.indom_null
      → get_elem? (processors stat) i ≡ some info
      → get_elem? (processors stat') i ≡ none
      → on_fetch_callback cfg api (simple_cpu fl api address (some stat')) m j (begun stat stat' s)
        ≡ ((api.err_pmid, none), notify (at_position log_debug) (begun stat stat' s))
  unfolding simple_cpu caught
  on_fetch_callback-gone laws cfg stat stat' s m i j info on hi e hj hn had gone =
      let after = begun stat stat' s in
      let b = begun-IsBegun stat stat' s in
      let id = metric_id 0 i j (cpu_metric api address i info) m.m_user in
      on_fetch_callback-thrown cfg api laws (simple_cpu fl api address (some stat')) 0 i j m after
        after (cpu_metric api address i info) out_of_range on (omega arith) hi e
        (begun-lookup stat stat' after b i info had) (begun-IsInstanceOf stat stat' after b j hj hn)
        (fetch_value-gone fl api id after
          (begun-tick_count stat stat' after b id ∙ tick_count-gone (processors stat') id gone))
