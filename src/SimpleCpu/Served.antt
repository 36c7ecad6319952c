-- ===== src/SimpleCpu/Served.antt =====
-- The agent simplecpu from its DSO's entry point on, while libpcp_pmda calls its callbacks
-- (example/simplecpu/simplecpu.cpp, on include/pcp-cpp/pmda.hpp).
use mathlib.Core.Option
use pcp_pmda_cpp.Base.{
  ℕ, ◌^◌, ◌≤◌, ◌<◌, ◌≡◌, ◌≢◌, refl, ap, ◌∙◌, false, List, [], ◌∷◌, get_elem?, Text, Option, none,
  some,
}
use pcp_pmda_cpp.Base.Int.{ℤ, is_neg}
use pcp_pmda_cpp.Pcp.{Pmapi, PmidLaws, IsAscending}
use pcp_pmda_cpp.Exception.{Result, ok}
use pcp_pmda_cpp.Metrics.Lookup.{lookup}
use pcp_pmda_cpp.Atom.Defs.{Floats, ull}
use pcp_pmda_cpp.Pmda.State.{Config, Pmda, notify}
use pcp_pmda_cpp.Pmda.BaseStore.{store_int, store_block}
use pcp_pmda_cpp.Pmda.Fetch.{PmdaMetric, on_fetch_callback}
use pcp_pmda_cpp.Pmda.Init.{Tables}
use pcp_pmda_cpp.Pmda.LifeCycle.{Process}
use pcp_pmda_cpp.Pmda.Callbacks.{Defaults}
use pcp_pmda_cpp.Pmda.Preserves.{Keeps, Preserves}
use pcp_pmda_cpp.Pmda.Serving.{Request, Serves, HasInstance, Serves-HasInstance}
use pcp_pmda_cpp.Daemon.Program.{dso_init}
use pcp_pmda_cpp.Daemon.Ready.{dso_init-ready}
use pcp_pmda_cpp.SimpleCpu.Stat.{CpuInfo}
use pcp_pmda_cpp.SimpleCpu.Defs.{
  SimpleCpu, cpu_states, not_empty, new_simple_cpu, load_cpu_ticks, begin_fetch_values, fetch_value,
  simple_cpu,
}
use pcp_pmda_cpp.SimpleCpu.Metrics.{cpu_metric}
use pcp_pmda_cpp.SimpleCpu.Fetched.{
  processors, initialize_pmda-IsBegun, fetching-IsBegun, on_fetch_callback-begun,
}
use pcp_pmda_cpp.SimpleCpu.Program.{made, simplecpu_init}

module _ (fl : Floats) (api : Pmapi) (address : ℕ) where
  -- The table has the metrics of the processors that `stat` tells of, and the states are there.
  pub record IsSound (stat : Text) (s : Pmda SimpleCpu) : Type 0 where
    pub metrics :
        (i : ℕ)
        → lookup 0 i s.supported_metrics
          ≡ Option.map (cpu_metric api address i) (get_elem? (processors stat) i)
    pub states : (s.heap address).instances ≡ (cpu_states api).instances

  load_cpu_ticks-IsSound :
      (stat : Text) (later : Option Text) → Preserves (IsSound stat) (begin_fetch_values api later)
  unfolding begin_fetch_values load_cpu_ticks Preserves
  load_cpu_ticks-IsSound stat none s p = record { metrics = p.metrics; states = p.states }
  load_cpu_ticks-IsSound stat (some t) s p = record { metrics = p.metrics; states = p.states }

  -- `later` is the text of /proc/stat, where the file can be read, at the time of a call.
  simple_cpu-Keeps :
      (stat : Text) (later : Option Text) → Keeps (IsSound stat) (simple_cpu fl api address later)
  unfolding simple_cpu begin_fetch_values load_cpu_ticks fetch_value store_int store_block notify
      Preserves
  simple_cpu-Keeps stat later = record {
    notify_keeps = λ e s p. record { metrics = p.metrics; states = p.states };
    begin_keeps = load_cpu_ticks-IsSound stat later;
    fetch_keeps = λ id s p. p;
    int_keeps = λ id v s p. p;
    block_keeps = λ id v s p. p;
  }

  not_empty-ok :
      (cs : List CpuInfo) (i : ℕ) (info : CpuInfo)
      → get_elem? cs i ≡ some info
      → not_empty api cs ≡ ok tt
  not_empty-ok [] i info e = cc
  not_empty-ok (c ∷ cs) i info e = refl

  new_simple_cpu-made :
      (stat : Text) (s : Pmda SimpleCpu) (i : ℕ) (info : CpuInfo)
      → get_elem? (processors stat) i ≡ some info
      → made (new_simple_cpu api address (some stat) s)
        ≡ ok ((new_simple_cpu api address (some stat) s).1)
  unfolding new_simple_cpu load_cpu_ticks
  new_simple_cpu-made stat s i info e =
      ap (λ r. made (r, (new_simple_cpu api address (some stat) s).1))
        (not_empty-ok (processors stat) i info e)

  -- The agent is loaded by a caller that understands its protocol, with pmdaDSO successful, while
  -- /proc/stat tells of the processor `i`. After any sequence of requests through the table of
  -- callbacks, whatever they return and whatever the file says at each, the instance is there. When
  -- it then begins to fetch while the text of the file has `n` as the count of the processor in the
  -- state `j`, fetching the metric of the processor at that instance returns PMDA_FETCH_STATIC and
  -- `n`, with the checks compiled in and interface version 4 or later.
  pub simplecpu_init-tick :
      PmidLaws api
      → IsAscending api.types
      → (cfg : Config) (lib : Defaults) (range_what : Text) (pmda_init : Tables → ℕ → ℕ)
        (understood : ℕ) (status : ℤ) (stat stat' : Text) (s : Pmda SimpleCpu)
        (p p' : Process SimpleCpu) (rs : List (Request × Result ℤ)) (m : PmdaMetric) (i j n : ℕ)
        (info info' : CpuInfo)
      → cfg.no_id_validity_checks ≡ false
      → 4 ≤ cfg.interface_version
      → cfg.interface_version ≤ understood
      → is_neg status ≡ false
      → i < 2 ^ 10
      → m.m_desc.pmid ≡ api.pmda_pmid 0 i
      → j < 9
      → j ≢ api.indom_null
      → get_elem? (processors stat) i ≡ some info
      → get_elem? (processors stat') i ≡ some info'
      → get_elem? info'.ticks j ≡ some n
      → let loaded =
          (simplecpu_init fl cfg api range_what pmda_init address
            (some stat)
            understood
            status
            s
            p).1 in
        Serves cfg api lib (simple_cpu fl api address) loaded rs p'
        → (s' : Pmda SimpleCpu) × (p'.instance_ ≡ some s')
          × (let after = (begin_fetch_values api (some stat') s').1 in
              on_fetch_callback cfg api (simple_cpu fl api address (some stat')) m j after
              ≡ ((api.fetch_static, some (ull n)), after))
  unfolding simplecpu_init HasInstance
  simplecpu_init-tick laws asc cfg lib range_what pmda_init understood status stat stat' s p p' rs m
        i j n info info' on v u nonneg hi e hj hn had has tick served =
      let constructed = (new_simple_cpu api address (some stat) s).1 in
      let agent = simple_cpu fl api address (some stat) in
      let ((t, run), ready) = initialize_pmda-IsBegun fl api address pmda_init stat s in
      let loaded =
        ap (λ r. (dso_init cfg api range_what agent pmda_init understood status r p).1.instance_)
          (new_simple_cpu-made stat s i info had)
        ∙ ap (λ x. x.1.instance_)
            (dso_init-ready cfg api range_what agent pmda_init understood status constructed p t u
              nonneg run) in
      let (s', there, sound) =
        Serves-HasInstance cfg api lib (simple_cpu fl api address) (IsSound stat) _ p' rs
          (simple_cpu-Keeps stat) served
          (_, loaded, record { metrics = ready.metrics; states = ready.states }) in
      (
        s',
        there,
        on_fetch_callback-begun fl api address pmda_init stat stat' _
            (fetching-IsBegun fl api address pmda_init stat stat' s' sound.metrics sound.states)
            laws asc cfg m i j n info info' on v hi e hj hn had has tick,
      )
