-- ===== src/Trivial/Served.antt =====
-- The agent trivial while libpcp_pmda calls its callbacks (example/trivial/trivial.cpp, on
-- include/pcp-cpp/pmda.hpp).
use pcp_pmda_cpp.Base.{ℕ, ◌^◌, ◌≤◌, ◌≡◌, false, List, some}
use pcp_pmda_cpp.Base.Int.{ℤ}
use pcp_pmda_cpp.Pcp.{Pmapi, PmidLaws, IsAscending}
use pcp_pmda_cpp.Exception.{Result}
use pcp_pmda_cpp.Metrics.Lookup.{lookup}
use pcp_pmda_cpp.Atom.Words.{to_unsigned}
use pcp_pmda_cpp.Atom.Defs.{Floats, ul}
use pcp_pmda_cpp.Pmda.State.{Config, Pmda, notify}
use pcp_pmda_cpp.Pmda.BaseStore.{store_int, store_block}
use pcp_pmda_cpp.Pmda.Fetch.{PmdaMetric, on_fetch_callback}
use pcp_pmda_cpp.Pmda.Init.{Tables, initialize_pmda}
use pcp_pmda_cpp.Pmda.LifeCycle.{Process}
use pcp_pmda_cpp.Pmda.Callbacks.{Defaults}
use pcp_pmda_cpp.Pmda.Preserves.{Keeps, Preserves}
use pcp_pmda_cpp.Pmda.Serving.{Request, Serves, HasInstance, Serves-HasInstance}
use pcp_pmda_cpp.Trivial.Defs.{time, fetch_value, trivial}
use pcp_pmda_cpp.Trivial.Fetched.{initialize_pmda-ready, on_fetch_callback-found}

module _ (fl : Floats) (api : Pmapi) where
  -- The table has the metric.
  abbrev HasTime : Pmda (Unit {0}) → Type 0
  HasTime s = lookup 0 0 s.supported_metrics ≡ some (time api)

  trivial-Keeps : (now : ℤ) → Keeps HasTime (trivial fl api now)
  unfolding trivial fetch_value store_int store_block notify Preserves
  trivial-Keeps now = record {
    notify_keeps = λ e s has. has;
    begin_keeps = λ s has. has;
    fetch_keeps = λ id s has. has;
    int_keeps = λ id v s has. has;
    block_keeps = λ id v s has. has;
  }

  -- After initialize_pmda and any sequence of requests through the table of callbacks, whatever
  -- they return, whatever the time is at each, and whatever the functions of libpcp_pmda do, the
  -- instance is there, and a fetch of its metric without an instance returns PMDA_FETCH_STATIC and
  -- the time at the fetch, modulo 2 ^ 32, with the checks compiled in and interface version 4 or
  -- later.
  pub Serves-time :
      PmidLaws api
      → IsAscending api.types
      → (cfg : Config) (lib : Defaults) (pmda_init : Tables → ℕ → ℕ) (start now : ℤ)
        (m : PmdaMetric) (s : Pmda (Unit {0})) (p p' : Process (Unit {0}))
        (rs : List (Request × Result ℤ))
      → cfg.no_id_validity_checks ≡ false
      → 4 ≤ cfg.interface_version
      → m.m_desc.pmid ≡ api.pmda_pmid 0 0
      → p.instance_ ≡ some ((initialize_pmda api (trivial fl api start) pmda_init s).1)
      → Serves cfg api lib (trivial fl api) p rs p'
      → (s' : Pmda (Unit {0})) × (p'.instance_ ≡ some s')
        × (on_fetch_callback cfg api (trivial fl api now) m api.indom_null s'
            ≡ ((api.fetch_static, some (ul (to_unsigned (2 ^ 32) now))), s'))
  unfolding HasInstance
  Serves-time laws asc cfg lib pmda_init start now m s p p' rs on v e here served =
      let (s', there, found) =
        Serves-HasInstance cfg api lib (trivial fl api) HasTime p p' rs trivial-Keeps served
          (_, here, (initialize_pmda-ready fl api pmda_init start s).1) in
      (s', there, on_fetch_callback-found fl api pmda_init laws asc cfg now m s' on v e found)
