-- ===== src/Pmda/Checked.antt =====
-- What the callbacks of pcp::pmda share: the look-up of a metric with its checks, and the handlers
-- (include/pcp-cpp/pmda.hpp).
use pcp_pmda_cpp.Base.{ℕ, ◌≡◌, false, some, none, codes, [], arith, if◌then◌else◌}
use pcp_pmda_cpp.Base.Int.{ℤ, eq_ℤ}
use pcp_pmda_cpp.Pcp.{Pmapi}
use pcp_pmda_cpp.Exception.{ok, err, Thrown, pcp, out_of_range, std, unknown, exception}
use pcp_pmda_cpp.Metrics.Defs.{MetricDescription, at_metric}
use pcp_pmda_cpp.Metrics.Lookup.{lookup, at_metric-lookup, at_metric-none}
use pcp_pmda_cpp.Pmda.State.{
  Config, Pmda, Method, ◌>>=◌, ◌>>◌, pure, notify, entry, at_position, log_err, log_debug,
}
use pcp_pmda_cpp.Pmda.Validate.{
  validate_instance, IsInstanceOf, validate_instance-ok, misfit_code, validate_instance-misfit,
}

-- The code that the handlers that on_fetch_callback and on_store end with return, and what they log.
unfoldable pub caught {ℓ} : {S : Type ℓ} → Pmapi → Thrown → Pmda S → ℤ × Pmda S
caught api (pcp ex) s = (
  ex.pm_error_code,
  if eq_ℤ ex.pm_error_code api.fetch_novalues then s else notify (entry log_err ex.message) s,
)
caught api out_of_range s = (api.err_pmid, notify (at_position log_debug) s)
caught api (std what) s = (api.err_generic, notify (entry log_err what) s)
caught api unknown s =
    (api.err_generic, notify (entry log_err (codes "unknown exception in on_fetch_callback")) s)

module _ {ℓ} {S : Type ℓ} (cfg : Config) (api : Pmapi) where
  -- `supported_metrics.at(cluster).at(item)`, then validate_instance.
  unfoldable pub checked_description : ℕ → ℕ → ℕ → Method S MetricDescription
  checked_description cluster item inst = do
    description ← (λ s. (at_metric cluster item s.supported_metrics, s))
    (λ s. (validate_instance cfg api s.heap description inst, s)) >> pure description

  pub checked_description-ok :
      (c i inst : ℕ) (s : Pmda S) (d : MetricDescription)
      → cfg.no_id_validity_checks ≡ false
      → lookup c i s.supported_metrics ≡ some d
      → IsInstanceOf api s.heap d.domain inst
      → checked_description c i inst s ≡ (ok d, s)
  unfolding checked_description
  checked_description-ok c i inst s d on found valid = ground (
    arith,
    at_metric-lookup c i s.supported_metrics d found,
    validate_instance-ok cfg on api s.heap d inst valid,
  )

  pub checked_description-none :
      (c i inst : ℕ) (s : Pmda S)
      → lookup c i s.supported_metrics ≡ none
      → checked_description c i inst s ≡ (err out_of_range, s)
  unfolding checked_description
  checked_description-none c i inst s missing =
      ground (arith, at_metric-none c i s.supported_metrics missing)

  pub checked_description-misfit :
      (c i inst : ℕ) (s : Pmda S) (d : MetricDescription)
      → cfg.no_id_validity_checks ≡ false
      → lookup c i s.supported_metrics ≡ some d
      → ¬ IsInstanceOf api s.heap d.domain inst
      → checked_description c i inst s
        ≡ (err (pcp (exception api (misfit_code api d.domain inst) [])), s)
  unfolding checked_description
  checked_description-misfit c i inst s d on found misfit = ground (
    arith,
    at_metric-lookup c i s.supported_metrics d found,
    validate_instance-misfit cfg on api s.heap d inst misfit,
  )
