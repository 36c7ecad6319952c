-- ===== src/Trivial/Fetched.antt =====
-- The agent trivial from initialize_pmda to a fetch (example/trivial/trivial.cpp, on
-- include/pcp-cpp/pmda.hpp).
use pcp_pmda_cpp.Base.{ℕ, ◌^◌, ◌≤◌, ◌≡◌, refl, ap, ◌∙◌, arith, false, some}
use pcp_pmda_cpp.Base.Int.{ℤ}
use pcp_pmda_cpp.Pcp.{Pmapi, PmidLaws, IsAscending}
use pcp_pmda_cpp.Exception.{ok}
use pcp_pmda_cpp.Metrics.Defs.{MetricsDescription}
use pcp_pmda_cpp.Metrics.Lookup.{lookup}
use pcp_pmda_cpp.Metrics.Build.{chain-builds}
use pcp_pmda_cpp.Atom.Words.{to_unsigned}
use pcp_pmda_cpp.Atom.Defs.{Floats, ul, atom}
use pcp_pmda_cpp.Atom.Convert.{atom-u32}
use pcp_pmda_cpp.Pmda.State.{Config, Pmda, MetricId, static_result}
use pcp_pmda_cpp.Pmda.Fetch.{PmdaMetric, on_fetch_callback}
use pcp_pmda_cpp.Pmda.FetchLaws.{metric_id, on_fetch_callback-registered}
use pcp_pmda_cpp.Pmda.Init.{Tables, initialize_pmda}
use pcp_pmda_cpp.Pmda.Registered.{initialize_pmda-registers}
use pcp_pmda_cpp.Trivial.Defs.{time, calls, get_supported_metrics, fetch_value, trivial}

module _ (fl : Floats) (api : Pmapi) (pmda_init : Tables → ℕ → ℕ) where
  get_supported_metrics-lookup :
      (s : Pmda (Unit {0}))
      → (m : MetricsDescription) × (get_supported_metrics api s ≡ (ok m, s))
        × (lookup 0 0 m ≡ some (time api))
  unfolding get_supported_metrics
  get_supported_metrics-lookup s =
      let (m, e, _, found, _) = chain-builds api (calls api) tt in
      (m, ap (λ r. (r, s)) e, found 0 0)

  fetch_value-time :
      IsAscending api.types
      → (now : ℤ) (id : MetricId) (s : Pmda (Unit {0})) → id.type ≡ api.type_u32
      → fetch_value fl api now id s
        ≡ (ok (record { atom = ul (to_unsigned (2 ^ 32) now); code = api.fetch_static }), s)
  unfolding fetch_value static_result atom
  fetch_value-time asc now id s e = rw (e, atom-u32 fl api asc now) refl

  -- The fetch, of members whose table has the metric.
  pub on_fetch_callback-found :
      PmidLaws api
      → IsAscending api.types
      → (cfg : Config) (now : ℤ) (m : PmdaMetric) (s : Pmda (Unit {0}))
      → cfg.no_id_validity_checks ≡ false
      → 4 ≤ cfg.interface_version
      → m.m_desc.pmid ≡ api.pmda_pmid 0 0
      → lookup 0 0 s.supported_metrics ≡ some (time api)
      → on_fetch_callback cfg api (trivial fl api now) m api.indom_null s
        ≡ ((api.fetch_static, some (ul (to_unsigned (2 ^ 32) now))), s)
  unfolding trivial
  on_fetch_callback-found laws asc cfg now m s on v e found =
      on_fetch_callback-registered cfg api laws (trivial fl api now) 0 0 api.indom_null m s s
        (time api) (record { atom = ul (to_unsigned (2 ^ 32) now); code = api.fetch_static }) on v
        (omega arith) (omega arith) e found refl
        (fetch_value-time asc now (metric_id 0 0 api.indom_null (time api) m.m_user) s refl)

  -- What initialize_pmda leaves, whatever identifiers pmdaInit does.
  pub initialize_pmda-ready :
      (now : ℤ) (s : Pmda (Unit {0}))
      → let (r, ready) = initialize_pmda api (trivial fl api now) pmda_init s in
        ((t : Tables) × r ≡ ok (some t)) × (lookup 0 0 ready.supported_metrics ≡ some (time api))
  unfolding trivial
  initialize_pmda-ready now s =
      let (d, built, found) = get_supported_metrics-lookup s in
      let (t, ready, run, _, supported, _, _) =
        initialize_pmda-registers api (trivial fl api now) pmda_init s s d built in
      (
        (t, ap (λ x. x.0) run),
        ap (λ x. lookup 0 0 x.1.supported_metrics) run ∙ ap (lookup 0 0) supported ∙ found,
      )

  -- An agent that is set up, whatever identifiers pmdaInit leaves, returns PMDA_FETCH_STATIC and
  -- the time, modulo 2 ^ 32, for its metric without an instance, with the checks compiled in and
  -- interface version 4 or later.
  pub on_fetch_callback-time :
      PmidLaws api
      → IsAscending api.types
      → (cfg : Config) (now : ℤ) (m : PmdaMetric) (s : Pmda (Unit {0}))
      → cfg.no_id_validity_checks ≡ false
      → 4 ≤ cfg.interface_version
      → m.m_desc.pmid ≡ api.pmda_pmid 0 0
      → let ready = (initialize_pmda api (trivial fl api now) pmda_init s).1 in
        on_fetch_callback cfg api (trivial fl api now) m api.indom_null ready
        ≡ ((api.fetch_static, some (ul (to_unsigned (2 ^ 32) now))), ready)
  on_fetch_callback-time laws asc cfg now m s on v e =
      on_fetch_callback-found laws asc cfg now m _ on v e (initialize_pmda-ready now s).1
