-- ===== src/Simple/Agent.antt =====
-- The class simple as an agent: its virtual methods on all its members (example/simple/simple.cpp).
use pcp_pmda_cpp.Base.{ℕ, ◌==◌, if◌then◌else◌}
use pcp_pmda_cpp.Pcp.{Pmapi}
use pcp_pmda_cpp.Atom.Defs.{Floats, Atom}
use pcp_pmda_cpp.Cache.Defs.{CacheLibrary}
use pcp_pmda_cpp.Pmda.State.{Pmda, Method, Agent}
use pcp_pmda_cpp.Pmda.BaseStore
use pcp_pmda_cpp.Simple.Defs.{
  Simple, Surroundings, new_color_domain, new_now_domain, new_simple, fetch_value, store_value,
}
use pcp_pmda_cpp.Simple.TimeNow.{Os, TimeNow, State, begin_fetch_values}
use pcp_pmda_cpp.Simple.Metrics.{get_supported_metrics}

module _ {C : Type 0} (fl : Floats) where
  -- What fetch_value reads, when the cache and the time slices are as in `t`.
  abbrev pub surroundings : CacheLibrary C → ℕ → TimeNow C → fl.Double × fl.Double → Surroundings fl
  surroundings lib now_domain t run_times = record {
    Cache = C;
    library = lib;
    cache = t.cache;
    tm_field = t.tm_field;
    now_domain = now_domain;
    run_times = run_times;
  }

  abbrev pub without_timenow : Pmda (State fl C) → Pmda (Simple fl)
  without_timenow s = record {
    supported_metrics = s.supported_metrics;
    instance_domains = s.instance_domains;
    free_on_destruction = s.free_on_destruction;
    heap = s.heap;
    log = s.log;
    output = s.output;
    previous_cluster_name = s.previous_cluster_name;
    agent = s.agent.0;
  }

  abbrev pub with_timenow : TimeNow C → Pmda (Simple fl) → Pmda (State fl C)
  with_timenow t s = record {
    supported_metrics = s.supported_metrics;
    instance_domains = s.instance_domains;
    free_on_destruction = s.free_on_destruction;
    heap = s.heap;
    log = s.log;
    output = s.output;
    previous_cluster_name = s.previous_cluster_name;
    agent = (s.agent, t);
  }

  -- A method that leaves the time slices and the cache alone.
  abbrev pub on_members {κ} : {A : Type κ} → Method (Simple fl) A → Method (State fl C) A
  on_members {A} f s = let (r, s') = f (without_timenow s) in (r, with_timenow s.agent.1 s')

module _ {C : Type 0} (fl : Floats) (api : Pmapi) (lib : CacheLibrary C)
    (color_domain now_domain : ℕ) (slice : ℕ → ℕ) where
  -- The constructor: its domains and its members.
  unfoldable pub construct : Pmda (State fl C) → Pmda (State fl C)
  unfolding new_color_domain new_now_domain new_simple
  construct s = record s {
    heap = λ p.
        if p == color_domain
        then new_color_domain api
        else if p == now_domain
        then new_now_domain api
        else s.heap p;
    agent = (new_simple fl, s.agent.1);
  }

  -- What the operating system tells at the time of a call, and what __pmProcessRunTimes writes then.
  unfoldable pub simple : Os × (fl.Double × fl.Double) → Agent (State fl C) (Atom fl)
  unfolding get_supported_metrics begin_fetch_values fetch_value store_value BaseStore.store_block
  simple (os, run_times) = record {
    get_supported_metrics = get_supported_metrics api color_domain now_domain;
    begin_fetch_values = begin_fetch_values fl api lib now_domain slice os;
    fetch_value = λ id s.
        on_members fl (fetch_value fl api (surroundings fl lib now_domain s.agent.1 run_times) id)
          s;
    store_int = λ id value. on_members fl (store_value fl api id value);
    store_block = BaseStore.store_block api;
  }
