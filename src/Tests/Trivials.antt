-- ===== src/Tests/Trivials.antt =====
-- The example agent trivial.
use pcp_pmda_cpp.Base.{◌^◌, ◌≡◌, refl, arith, some}
use pcp_pmda_cpp.Base.Int.{pos}
use pcp_pmda_cpp.Pcp.{pcp4, pcp4-PmidLaws, pcp4_types-IsAscending}
use pcp_pmda_cpp.Atom.Words.{to_unsigned}
use pcp_pmda_cpp.Atom.Defs.{ul}
use pcp_pmda_cpp.Pmda.State.{Pmda}
use pcp_pmda_cpp.Pmda.Init.{initialize_pmda}
use pcp_pmda_cpp.Pmda.Fetch.{PmdaMetric, on_fetch_callback}
use pcp_pmda_cpp.Trivial.Defs.{trivial}
use pcp_pmda_cpp.Trivial.Fetched.{on_fetch_callback-time}
use pcp_pmda_cpp.Exception.{ok, Result}
use pcp_pmda_cpp.Base.{ap, List, [], ◌∷◌}
use pcp_pmda_cpp.Base.Int.{ℤ}
use pcp_pmda_cpp.Pmda.LifeCycle.{Process}
use pcp_pmda_cpp.Pmda.Callbacks.{set_callbacks}
use pcp_pmda_cpp.Pmda.Serving.{Request, profile, fetch, fetch_callback, Serves, idle, next}
use pcp_pmda_cpp.Metrics.Chain
use pcp_pmda_cpp.Metrics.MetricCall
use pcp_pmda_cpp.Trivial.Program.{trivial_init, trivial_init-time}
use pcp_pmda_cpp.Base.{codes, none}
use pcp_pmda_cpp.Tests.Requests.{defaults}
use pcp_pmda_cpp.Tests.Atoms.{whole_floats}
use pcp_pmda_cpp.Tests.Fixtures.{config, fresh}

abbrev mdesc : PmdaMetric
mdesc = record {
  m_user = 0;
  m_desc = record { indom = 0; pmid = pcp4.pmda_pmid 0 0; sem = 0; type = 0; units = 0 };
}

abbrev ready : Pmda (Unit {0})
ready = (initialize_pmda pcp4 (trivial whole_floats pcp4 (pos 1700000000)) (λ t i. i) (fresh tt)).1

abbrev started : Process (Unit {0})
started = record { instance_ = some ready; freed = []; process_log = [] }

abbrev asked : List (Request × Result ℤ)
asked =
    (profile 5, ok (pos 0))
    ∷ (fetch (pcp4.pmda_pmid 0 0 ∷ []), ok (pos 0))
    ∷ (fetch_callback mdesc 0xffff_ffff, ok pcp4.fetch_static)
    ∷ []

fetched :
    on_fetch_callback config pcp4
      (trivial whole_floats pcp4 (pos 1700000000))
      mdesc
      0xffff_ffff
      ready
    ≡ ((pcp4.fetch_static, some (ul (to_unsigned (2 ^ 32) (pos 1700000000)))), ready)
fetched =
    on_fetch_callback-time whole_floats pcp4 (λ t i. i) pcp4-PmidLaws pcp4_types-IsAscending config
      (pos 1700000000) mdesc (fresh tt) refl (omega arith) refl

served : Serves config pcp4 defaults (trivial whole_floats pcp4) started asked started
unfolding set_callbacks trivial
served = next (pos 1700000001) refl refl (
    next (pos 1700000002) refl refl (
      next (pos 1700000000) refl
        (ap (λ x. some (ok x.0.0, record started { instance_ = some x.1 })) fetched) idle))

abbrev loaded : Result (Unit {0}) × Process (Unit {0})
loaded =
    trivial_init whole_floats config pcp4 (codes "out_of_range") (λ t i. i) (pos 1700000000) 7
      (pos 0) (fresh tt) (record { instance_ = none; freed = []; process_log = [] })

trivial_init-time_example :
    (loaded.0 ≡ ok tt)
    × (s : Pmda (Unit {0})) × (some ready ≡ some s)
    × (on_fetch_callback config pcp4
          (trivial whole_floats pcp4 (pos 1700000009))
          mdesc
          0xffff_ffff
          s
        ≡ ((pcp4.fetch_static, some (ul (to_unsigned (2 ^ 32) (pos 1700000009)))), s))
unfolding trivial_init trivial Chain.call MetricCall.domain_texts
trivial_init-time_example =
    trivial_init-time whole_floats config pcp4 (codes "out_of_range") (λ t i. i) (pos 1700000000)
      pcp4-PmidLaws pcp4_types-IsAscending defaults 7 (pos 0) (pos 1700000009) mdesc (fresh tt)
      (record { instance_ = none; freed = []; process_log = [] }) started asked refl (omega arith)
      (omega arith) refl refl served
