-- ===== src/Trivial/Program.antt =====
-- The entry points of example/trivial/trivial.cpp, and what its name and number are.
use pcp_pmda_cpp.Base.{ℕ, ◌^◌, ◌≤◌, ◌≡◌, ap, false, Text, codes, Bool, List, Option, some}
use pcp_pmda_cpp.Base.Int.{ℤ, pos, is_neg}
use pcp_pmda_cpp.Pcp.{Pmapi, PmidLaws, IsAscending}
use pcp_pmda_cpp.Exception.{Result, ok}
use pcp_pmda_cpp.Atom.Words.{to_unsigned}
use pcp_pmda_cpp.Atom.Defs.{Floats, ul}
use pcp_pmda_cpp.Pmda.State.{Config, Pmda}
use pcp_pmda_cpp.Pmda.Fetch.{PmdaMetric, on_fetch_callback}
use pcp_pmda_cpp.Pmda.Init.{Tables}
use pcp_pmda_cpp.Pmda.LifeCycle.{Process}
use pcp_pmda_cpp.Pmda.Callbacks.{Defaults}
use pcp_pmda_cpp.Pmda.Serving.{Request, Serves}
use pcp_pmda_cpp.Export.Files.{Identity}
use pcp_pmda_cpp.CommandLine.Defs.{Environment, Interface}
use pcp_pmda_cpp.Daemon.Program.{daemon_main, dso_init}
use pcp_pmda_cpp.Daemon.Ready.{dso_init-ready}
use pcp_pmda_cpp.Trivial.Defs.{trivial}
use pcp_pmda_cpp.Trivial.Fetched.{initialize_pmda-ready}
use pcp_pmda_cpp.Trivial.Served.{Serves-time}

-- get_pmda_name and get_default_pmda_domain_number.
abbrev pub identity : Identity
identity = record { pmda_name = codes "trivial"; default_domain_number = pos 250 }

module _ (fl : Floats) (cfg : Config) (api : Pmapi) (range_what : Text) (pmda_init : Tables → ℕ → ℕ)
    (now : ℤ) where
  -- `s` are the members that the constructor leaves.
  unfoldable pub trivial_init :
      ℕ → ℤ → Pmda (Unit {0}) → Process (Unit {0}) → Result (Unit {0}) × Process (Unit {0})
  unfolding dso_init
  trivial_init understood status s p =
      dso_init cfg api range_what (trivial fl api now) pmda_init understood status (ok s) p

  unfoldable pub main :
      (Text → Bool)
      → Environment
      → (Pmda (Unit {0}) → Result (Unit {0}) × Pmda (Unit {0}))
      → List Text
      → Interface
      → Pmda (Unit {0})
      → Process (Unit {0})
      → Option (Result Bool × Process (Unit {0}))
  unfolding daemon_main
  main can_open env serve argv interface s p =
      daemon_main cfg api range_what (trivial fl api now) pmda_init can_open env identity serve argv
        interface (ok s) p

  -- After trivial_init, where the caller understands the protocol and pmdaDSO succeeds, and any
  -- sequence of requests through the table of callbacks, whatever they return, whatever the time is
  -- at each, and whatever the functions of libpcp_pmda do, the instance is there, and a fetch of its
  -- metric without an instance returns PMDA_FETCH_STATIC and the time at the fetch, modulo 2 ^ 32,
  -- with the checks compiled in and interface version 4 or later.
  pub trivial_init-time :
      PmidLaws api
      → IsAscending api.types
      → (lib : Defaults) (understood : ℕ) (status later : ℤ) (m : PmdaMetric) (s : Pmda (Unit {0}))
        (p p' : Process (Unit {0})) (rs : List (Request × Result ℤ))
      → cfg.no_id_validity_checks ≡ false
      → 4 ≤ cfg.interface_version
      → cfg.interface_version ≤ understood
      → is_neg status ≡ false
      → m.m_desc.pmid ≡ api.pmda_pmid 0 0
      → Serves cfg api lib (trivial fl api) (trivial_init understood status s p).1 rs p'
      → ((trivial_init understood status s p).0 ≡ ok tt)
        × (s' : Pmda (Unit {0})) × (p'.instance_ ≡ some s')
        × (on_fetch_callback cfg api (trivial fl api later) m api.indom_null s'
            ≡ ((api.fetch_static, some (ul (to_unsigned (2 ^ 32) later))), s'))
  unfolding trivial_init
  trivial_init-time laws asc lib understood status later m s p p' rs on v u nonneg e served =
      let ((t, run), _) = initialize_pmda-ready fl api pmda_init now s in
      let ready =
        dso_init-ready cfg api range_what (trivial fl api now) pmda_init understood status s p t u
          nonneg run in
      let (s', there, fetched) =
        Serves-time fl api laws asc cfg lib pmda_init now later m s _ p' rs on v e
          (ap (λ x. x.1.instance_) ready) served in
      (ap (λ x. x.0) ready, s', there, fetched)
