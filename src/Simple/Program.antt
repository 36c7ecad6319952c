-- ===== src/Simple/Program.antt =====
-- The entry points of example/simple/simple.cpp, and what its name and number are.
use pcp_pmda_cpp.Base.{ℕ, ◌≤◌, ◌≡◌, ◌≢◌, ap, false, Bool, Text, codes, List, Option, some}
use pcp_pmda_cpp.Base.Int.{ℤ, pos, is_neg}
use pcp_pmda_cpp.Pcp.{Pmapi}
use pcp_pmda_cpp.Exception.{Result, ok}
use pcp_pmda_cpp.Atom.Defs.{Floats}
use pcp_pmda_cpp.Cache.Defs.{CacheLibrary}
use pcp_pmda_cpp.Pmda.State.{Config, Pmda}
use pcp_pmda_cpp.Pmda.Init.{Tables}
use pcp_pmda_cpp.Pmda.LifeCycle.{Process}
use pcp_pmda_cpp.Pmda.Callbacks.{Defaults}
use pcp_pmda_cpp.Pmda.Serving.{Request, Serves, HasInstance}
use pcp_pmda_cpp.Export.Files.{Identity}
use pcp_pmda_cpp.CommandLine.Defs.{Environment, Interface}
use pcp_pmda_cpp.Daemon.Program.{daemon_main, dso_init}
use pcp_pmda_cpp.Daemon.Ready.{dso_init-ready}
use pcp_pmda_cpp.Simple.TimeNow.{Os, State}
use pcp_pmda_cpp.Simple.Agent.{construct, simple}
use pcp_pmda_cpp.Simple.Invariant.{IsSound, initialize_pmda-tables}
use pcp_pmda_cpp.Simple.Served.{set_up, Serves-IsSound}
use pcp_pmda_cpp.Simple.InBounds.{bounded, Serves-bounded}

-- get_pmda_name and get_default_pmda_domain_number.
abbrev pub identity : Identity
identity = record { pmda_name = codes "simple"; default_domain_number = pos 253 }

module _ {C : Type 0} (fl : Floats) (cfg : Config) (api : Pmapi) (lib : CacheLibrary C)
    (range_what : Text) (color_domain now_domain : ℕ) (slice : ℕ → ℕ) (pmda_init : Tables → ℕ → ℕ)
    (w : Os × (fl.Double × fl.Double)) where
  unfoldable pub simple_init :
      ℕ → ℤ → Pmda (State fl C) → Process (State fl C) → Result (Unit {0}) × Process (State fl C)
  unfolding dso_init construct
  simple_init understood status s p =
      dso_init cfg api range_what (simple fl api lib color_domain now_domain slice w) pmda_init
        understood status (ok (construct fl api lib color_domain now_domain slice s)) p

  unfoldable pub main :
      (Text → Bool)
      → Environment
      → (Pmda (State fl C) → Result (Unit {0}) × Pmda (State fl C))
      → List Text
      → Interface
      → Pmda (State fl C)
      → Process (State fl C)
      → Option (Result Bool × Process (State fl C))
  unfolding daemon_main construct
  main can_open env serve argv interface s p =
      daemon_main cfg api range_what (simple fl api lib color_domain now_domain slice w) pmda_init
        can_open env identity serve argv interface
        (ok (construct fl api lib color_domain now_domain slice s)) p

  -- Where the caller understands the protocol and pmdaDSO succeeds.
  simple_init-ready :
      (differ : color_domain ≢ now_domain) (understood : ℕ) (status : ℤ) (s : Pmda (State fl C))
      (p : Process (State fl C))
      → cfg.interface_version ≤ understood
      → is_neg status ≡ false
      → simple_init understood status s p ≡ (
        ok tt,
        record p {
          instance_ = some (set_up fl api lib color_domain now_domain slice differ pmda_init w s);
        },
      )
  unfolding simple_init
  simple_init-ready differ understood status s p v nonneg =
      let (t, run) =
        initialize_pmda-tables fl api lib color_domain now_domain slice differ pmda_init w s in
      dso_init-ready cfg api range_what (simple fl api lib color_domain now_domain slice w)
        pmda_init understood status (construct fl api lib color_domain now_domain slice s) p t v
        nonneg run

  pub simple_init-IsSound :
      (differ : color_domain ≢ now_domain) (defaults : Defaults) (understood : ℕ) (status : ℤ)
      (s : Pmda (State fl C)) (p p' : Process (State fl C)) (rs : List (Request × Result ℤ))
      → cfg.interface_version ≤ understood
      → is_neg status ≡ false
      → Serves cfg api defaults
          (simple fl api lib color_domain now_domain slice)
          (simple_init understood status s p).1
          rs
          p'
      → HasInstance (IsSound fl api color_domain now_domain) p'
  simple_init-IsSound differ defaults understood status s p p' rs v nonneg served =
      Serves-IsSound fl api lib color_domain now_domain slice differ pmda_init w cfg defaults s _ p'
        rs (ap (λ x. x.1.instance_) (simple_init-ready differ understood status s p v nonneg))
        served

  -- With the checks compiled in, no request comes to an element of `rgb` that is not there: after
  -- simple_init, where the caller understands the protocol and pmdaDSO succeeds, whatever is fetched
  -- and stored and whatever the surroundings tell, the agent answers every sequence of requests as
  -- the agent that throws at an access out of bounds does, with the same members.
  pub simple_init-bounded :
      color_domain ≢ now_domain
      → cfg.no_id_validity_checks ≡ false
      → (defaults : Defaults) (understood : ℕ) (status : ℤ) (s : Pmda (State fl C))
        (p p' : Process (State fl C)) (rs : List (Request × Result ℤ))
      → cfg.interface_version ≤ understood
      → is_neg status ≡ false
      → let (r, started) = simple_init understood status s p in
        Serves cfg api defaults (simple fl api lib color_domain now_domain slice) started rs p'
        → (r ≡ ok tt)
          × Serves cfg api defaults (bounded fl api lib color_domain now_domain slice) started rs p'
  simple_init-bounded differ on defaults understood status s p p' rs v nonneg served =
      let ready = simple_init-ready differ understood status s p v nonneg in
      (
        ap (λ x. x.0) ready,
        Serves-bounded fl api lib color_domain now_domain slice differ cfg on defaults pmda_init w s
            _ p' rs (ap (λ x. x.1.instance_) ready) served,
      )
