-- ===== src/Simple/Served.antt =====
-- The agent simple while libpcp_pmda calls its callbacks (example/simple/simple.cpp, on
-- include/pcp-cpp/pmda.hpp).
use pcp_pmda_cpp.Base.{ℕ, ◌≡◌, ◌≢◌, List, some}
use pcp_pmda_cpp.Base.Int.{ℤ}
use pcp_pmda_cpp.Pcp.{Pmapi}
use pcp_pmda_cpp.Exception.{Result}
use pcp_pmda_cpp.Atom.Defs.{Floats}
use pcp_pmda_cpp.Cache.Defs.{CacheLibrary}
use pcp_pmda_cpp.Pmda.State.{Config, Pmda}
use pcp_pmda_cpp.Pmda.Init.{Tables, initialize_pmda}
use pcp_pmda_cpp.Pmda.LifeCycle.{Process}
use pcp_pmda_cpp.Pmda.Callbacks.{Defaults}
use pcp_pmda_cpp.Pmda.Serving.{Request, Serves, HasInstance, Serves-HasInstance}
use pcp_pmda_cpp.Simple.TimeNow.{Os, State}
use pcp_pmda_cpp.Simple.Agent.{construct, simple}
use pcp_pmda_cpp.Simple.Invariant.{IsSound, simple-Keeps, initialize_pmda-IsSound}

module _ {C : Type 0} (fl : Floats) (api : Pmapi) (lib : CacheLibrary C)
    (color_domain now_domain : ℕ) (slice : ℕ → ℕ) (differ : color_domain ≢ now_domain)
    (pmda_init : Tables → ℕ → ℕ) (start : Os × (fl.Double × fl.Double)) where
  -- The members when the constructor and initialize_pmda have run.
  abbrev pub set_up : Pmda (State fl C) → Pmda (State fl C)
  set_up s =
      (initialize_pmda api (simple fl api lib color_domain now_domain slice start) pmda_init
        (construct fl api lib color_domain now_domain slice s)).1

  pub Serves-IsSound :
      (cfg : Config) (defaults : Defaults) (s : Pmda (State fl C)) (p p' : Process (State fl C))
      (rs : List (Request × Result ℤ))
      → p.instance_ ≡ some (set_up s)
      → Serves cfg api defaults (simple fl api lib color_domain now_domain slice) p rs p'
      → HasInstance (IsSound fl api color_domain now_domain) p'
  unfolding HasInstance
  Serves-IsSound cfg defaults s p p' rs here served =
      Serves-HasInstance cfg api defaults (simple fl api lib color_domain now_domain slice)
        (IsSound fl api color_domain now_domain) p p' rs
        (simple-Keeps fl api lib color_domain now_domain slice differ) served
        (
          set_up s,
          here,
          initialize_pmda-IsSound fl api lib color_domain now_domain slice differ pmda_init start s,
        )
