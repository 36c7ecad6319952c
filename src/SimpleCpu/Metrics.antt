-- ===== src/SimpleCpu/Metrics.antt =====
-- The metrics that simple_cpu supports (example/simplecpu/simplecpu.cpp).
use mathlib.Core.Option
use pcp_pmda_cpp.Base.{
  ℕ, zero, suc, ◌+◌, ◌≡◌, ◌≢◌, refl, ap, fun_ext, ◌∙◌, arith, codes, List, [], ◌∷◌, get_elem?, none,
  some,
}
use pcp_pmda_cpp.Base.Int.{pos}
use pcp_pmda_cpp.Pcp.{Pmapi}
use pcp_pmda_cpp.Units.{units}
use pcp_pmda_cpp.Exception.{ok, ◌>>=◌}
use pcp_pmda_cpp.Metrics.Defs.{MetricDescription, MetricsDescription}
use pcp_pmda_cpp.Metrics.Lookup.{lookup}
use pcp_pmda_cpp.Metrics.MetricCall.{domain_texts}
use pcp_pmda_cpp.Metrics.Chain.{Call, cluster, metric, call, chain}
use pcp_pmda_cpp.Metrics.Chain
use pcp_pmda_cpp.Metrics.Calls.{first_metric}
use pcp_pmda_cpp.Metrics.Build.{chain-builds}
use pcp_pmda_cpp.Atom.Types.{type, uint64}
use pcp_pmda_cpp.Pmda.State.{Pmda}
use pcp_pmda_cpp.SimpleCpu.Stat.{CpuInfo}
use pcp_pmda_cpp.SimpleCpu.Defs.{SimpleCpu, metric_name, add_metrics, get_supported_metrics}

-- The metric of a processor.
abbrev pub cpu_metric : Pmapi → ℕ → ℕ → CpuInfo → MetricDescription
cpu_metric api address index info = record {
  metric_name = metric_name index info;
  type = api.type_u64;
  semantic = api.sem_counter;
  units = api.pmda_pmunits (pos 0) (pos 0) (pos 1) 0 0 api.count_one;
  domain = some address;
  short_description = codes "The amount of time spent in various states";
  verbose_description = [];
  opaque = 0;
  flags = 0;
}

module _ (api : Pmapi) (address : ℕ) where
  abbrev calls : ℕ → List CpuInfo → List Call
  calls index [] = []
  calls index (info ∷ later) =
      metric Chain.domain_texts index (cpu_metric api address index info) ∷ calls (suc index) later

  add_metrics-chain :
      (index : ℕ) (cpu_info : List CpuInfo) (m : MetricsDescription)
      → add_metrics api address index cpu_info m ≡ chain api (calls index cpu_info) m
  unfolding add_metrics chain call units type
  add_metrics-chain index [] m = refl
  add_metrics-chain index (info ∷ later) m =
      ap
        (λ f.
          domain_texts api index (metric_name index info) (type api.types uint64) api.sem_counter
            (units api (pos 0) (pos 0) (pos 1) 0 0 api.count_one) (some address)
            (codes "The amount of time spent in various states") [] 0 0 m
          >>= f)
        (fun_ext (add_metrics-chain (suc index) later))

  first_metric-calls :
      (k : ℕ) (cpu_info : List CpuInfo) (i j : ℕ)
      → i ≡ k + j
      → first_metric (some 0) (calls k cpu_info) 0 i
        ≡ Option.map (cpu_metric api address i) (get_elem? cpu_info j)
  first_metric-calls k [] i j h = refl
  first_metric-calls k (info ∷ later) i zero h = ground arith
  first_metric-calls k (info ∷ later) i (suc j) h =
      ground (arith, first_metric-calls (suc k) later i j (omega arith))

  first_metric-other :
      (k : ℕ) (cpu_info : List CpuInfo) (c i : ℕ)
      → c ≢ 0
      → first_metric (some 0) (calls k cpu_info) c i ≡ none
  first_metric-other k [] c i h = refl
  first_metric-other k (info ∷ later) c i h =
      ground (arith, h, first_metric-other (suc k) later c i h)

  -- The metrics are built without an exception. Those of cluster 0 are one for each processor, in
  -- the order of /proc/stat, each a counter over the processor states; no other cluster has any.
  pub get_supported_metrics-lookup :
      (s : Pmda SimpleCpu)
      → (m : MetricsDescription) × (get_supported_metrics api address s ≡ (ok m, s))
        × ((i : ℕ)
            → lookup 0 i m ≡ Option.map (cpu_metric api address i) (get_elem? s.agent.cpu_info i))
        × ((c i : ℕ) → c ≢ 0 → lookup c i m ≡ none)
  unfolding get_supported_metrics chain call
  get_supported_metrics-lookup s =
      let (m, e, w, found, names) =
        chain-builds api (cluster 0 (codes "ticks") ∷ calls 0 s.agent.cpu_info) tt in
      (
        m,
        ap (λ r. (r, s)) (add_metrics-chain 0 s.agent.cpu_info _ ∙ e),
        (λ i. found 0 i ∙ first_metric-calls 0 s.agent.cpu_info i i (omega arith)),
        (λ c i h. found c i ∙ first_metric-other 0 s.agent.cpu_info c i h),
      )
