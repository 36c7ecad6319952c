-- ===== src/Trivial/Defs.antt =====
-- The class trivial (example/trivial/trivial.cpp); it has no members.
use pcp_pmda_cpp.Base.{codes, List, [], ◌∷◌, none}
use pcp_pmda_cpp.Base.Int.{ℤ, pos}
use pcp_pmda_cpp.Pcp.{Pmapi}
use pcp_pmda_cpp.Units.{units}
use pcp_pmda_cpp.Metrics.Defs.{MetricDescription, MetricsDescription, metrics_description}
use pcp_pmda_cpp.Metrics.Chain
use pcp_pmda_cpp.Metrics.Chain.{Call, cluster, metric, chain}
use pcp_pmda_cpp.Atom.Types.{CppType, type}
use pcp_pmda_cpp.Atom.Defs.{Floats, Atom, integer, atom}
use pcp_pmda_cpp.Pmda.State.{Method, MetricId, FetchValueResult, Agent, pure, static_result}
use pcp_pmda_cpp.Pmda.BaseStore.{store_int, store_block}

unfoldable pub time : Pmapi → MetricDescription
unfolding units type
time api = record {
  metric_name = codes "time";
  type = type api.types CppType.uint32;
  semantic = api.sem_counter;
  units = units api (pos 0) (pos 1) (pos 0) 0 api.time_sec (pos 0);
  domain = none;
  short_description = codes "The time in seconds since 1 Jan 1970";
  verbose_description = codes "The time in seconds since the 1st of January, 1970.";
  opaque = 0;
  flags = 0;
}

abbrev pub calls : Pmapi → List Call
calls api = cluster 0 [] ∷ metric Chain.domain_texts 0 (time api) ∷ []

unfoldable pub get_supported_metrics : Pmapi → Method (Unit {0}) MetricsDescription
unfolding chain metrics_description time
get_supported_metrics api s = (chain api (calls api) metrics_description, s)

-- `now` is what time(NULL) returns.
unfoldable pub fetch_value :
    (fl : Floats) → Pmapi → ℤ → MetricId → Method (Unit {0}) (FetchValueResult (Atom fl))
unfolding static_result atom
fetch_value fl api now id s = (static_result api (atom fl api id.type (integer now)), s)

-- The virtual methods, those of the base class where they are not overridden.
unfoldable pub trivial : (fl : Floats) → Pmapi → ℤ → Agent (Unit {0}) (Atom fl)
unfolding get_supported_metrics fetch_value store_int store_block
trivial fl api now = record {
  get_supported_metrics = get_supported_metrics api;
  begin_fetch_values = pure tt;
  fetch_value = fetch_value fl api now;
  store_int = store_int api;
  store_block = store_block api;
}
