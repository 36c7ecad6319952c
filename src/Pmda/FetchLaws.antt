-- ===== src/Pmda/FetchLaws.antt =====
-- on_fetch_callback against what it promises (include/pcp-cpp/pmda.hpp).
use pcp_pmda_cpp.Base.{ℕ, ◌≡◌, refl, ◌^◌, ◌<◌, ◌≤◌, false, none, some, arith}
use pcp_pmda_cpp.Pcp.{Pmapi, PmidLaws, ErrorLaws}
use pcp_pmda_cpp.Exception.{ok, err, Thrown, exception}
use pcp_pmda_cpp.Metrics.Defs.{MetricDescription}
use pcp_pmda_cpp.Metrics.Lookup.{lookup}
use pcp_pmda_cpp.Pmda.State.{
  Config, Pmda, MetricId, FetchValueResult, Agent, notify, entry, at_position, log_err, log_debug,
}
use pcp_pmda_cpp.Pmda.Validate.{IsInstanceOf, misfit_code, misfit_code-ne}
use pcp_pmda_cpp.Pmda.Checked.{
  caught, checked_description-ok, checked_description-none, checked_description-misfit,
}
use pcp_pmda_cpp.Pmda.Fetch.{PmdaMetric, expected_type, fetch_metric, fetch_code, on_fetch_callback}

-- The identifier that the handler passes to fetch_value.
abbrev pub metric_id : ℕ → ℕ → ℕ → MetricDescription → ℕ → MetricId
metric_id c i inst d o = record {
  cluster = c;
  item = i;
  instance_id = inst;
  type = d.type;
  opaque = o;
}

module _ {ℓ} {S : Type ℓ} (cfg : Config) (api : Pmapi) where
  expected_type-ok :
      (c i inst : ℕ) (s : Pmda S) (d : MetricDescription)
      → cfg.no_id_validity_checks ≡ false
      → lookup c i s.supported_metrics ≡ some d
      → IsInstanceOf api s.heap d.domain inst
      → expected_type cfg api c i inst s ≡ (ok d.type, s)
  unfolding expected_type
  expected_type-ok c i inst s d on found valid =
      ground (arith, checked_description-ok cfg api c i inst s d on found valid)

module _ {ℓ κ} {S : Type ℓ} {A : Type κ} (cfg : Config) (api : Pmapi) where
  fetch_metric-ok :
      PmidLaws api
      → (agent : Agent S A) (c i inst : ℕ) (m : PmdaMetric) (s : Pmda S) (d : MetricDescription)
      → cfg.no_id_validity_checks ≡ false
      → c < 2 ^ 12
      → i < 2 ^ 10
      → m.m_desc.pmid ≡ api.pmda_pmid c i
      → lookup c i s.supported_metrics ≡ some d
      → IsInstanceOf api s.heap d.domain inst
      → fetch_metric cfg api agent m inst s ≡ agent.fetch_value (metric_id c i inst d m.m_user) s
  unfolding fetch_metric
  fetch_metric-ok laws agent c i inst m s d on hc hi e found valid =
      rw (e, laws.cluster_of_pmid c i hc hi, laws.item_of_pmid c i hc hi)
        (ground (arith, expected_type-ok cfg api c i inst s d on found valid))

  -- With the checks compiled in and interface version 4 or later, fetching a registered metric at
  -- an instance that fits it returns what the agent's fetch_value returns for the metric's own
  -- identifier, with the type it was registered with: its code, its atom, and the members as it
  -- left them.
  pub on_fetch_callback-registered :
      PmidLaws api
      → (agent : Agent S A) (c i inst : ℕ) (m : PmdaMetric) (s s' : Pmda S) (d : MetricDescription)
        (r : FetchValueResult A)
      → cfg.no_id_validity_checks ≡ false
      → 4 ≤ cfg.interface_version
      → c < 2 ^ 12
      → i < 2 ^ 10
      → m.m_desc.pmid ≡ api.pmda_pmid c i
      → lookup c i s.supported_metrics ≡ some d
      → IsInstanceOf api s.heap d.domain inst
      → agent.fetch_value (metric_id c i inst d m.m_user) s ≡ (ok r, s')
      → on_fetch_callback cfg api agent m inst s ≡ ((r.code, some r.atom), s')
  unfolding on_fetch_callback fetch_code
  on_fetch_callback-registered laws agent c i inst m s s' d r on v hc hi e found valid run =
      rw (fetch_metric-ok laws agent c i inst m s d on hc hi e found valid, run) (ground arith)

  -- What the agent's fetch_value throws, the handlers turn into a code; no atom is written.
  pub on_fetch_callback-thrown :
      PmidLaws api
      → (agent : Agent S A) (c i inst : ℕ) (m : PmdaMetric) (s s' : Pmda S) (d : MetricDescription)
        (e : Thrown)
      → cfg.no_id_validity_checks ≡ false
      → c < 2 ^ 12
      → i < 2 ^ 10
      → m.m_desc.pmid ≡ api.pmda_pmid c i
      → lookup c i s.supported_metrics ≡ some d
      → IsInstanceOf api s.heap d.domain inst
      → agent.fetch_value (metric_id c i inst d m.m_user) s ≡ (err e, s')
      → on_fetch_callback cfg api agent m inst s
        ≡ (let (code, s'') = caught api e s' in ((code, none), s''))
  unfolding on_fetch_callback
  on_fetch_callback-thrown laws agent c i inst m s s' d e on hc hi h found valid run =
      rw (fetch_metric-ok laws agent c i inst m s d on hc hi h found valid, run) refl

  -- With the checks compiled in, a metric whose cluster or item is not registered is refused with
  -- PM_ERR_PMID: no atom is written, the agent is not called, and only the log changes.
  pub on_fetch_callback-unregistered :
      (agent : Agent S A) (m : PmdaMetric) (inst : ℕ) (s : Pmda S)
      → cfg.no_id_validity_checks ≡ false
      → lookup (api.id_cluster m.m_desc.pmid) (api.id_item m.m_desc.pmid) s.supported_metrics ≡ none
      → on_fetch_callback cfg api agent m inst s
        ≡ ((api.err_pmid, none), notify (at_position log_debug) s)
  unfolding on_fetch_callback fetch_metric expected_type caught
  on_fetch_callback-unregistered agent m inst s on missing = ground (
    arith,
    checked_description-none cfg api (api.id_cluster m.m_desc.pmid) (api.id_item m.m_desc.pmid) inst
        s missing,
  )

  -- With the checks compiled in, a registered metric at an instance that does not fit its domain is
  -- refused with PM_ERR_INDOM or PM_ERR_INST: no atom is written, the agent is not called, and
  -- libpcp's message for the code is logged as an error.
  pub on_fetch_callback-misfit :
      ErrorLaws api
      → (agent : Agent S A) (m : PmdaMetric) (inst : ℕ) (s : Pmda S) (d : MetricDescription)
      → cfg.no_id_validity_checks ≡ false
      → lookup (api.id_cluster m.m_desc.pmid) (api.id_item m.m_desc.pmid) s.supported_metrics
        ≡ some d
      → ¬ IsInstanceOf api s.heap d.domain inst
      → let code = misfit_code api d.domain inst in
        on_fetch_callback cfg api agent m inst s
        ≡ ((code, none), notify (entry log_err (api.err_str code)) s)
  unfolding on_fetch_callback fetch_metric expected_type caught exception
  on_fetch_callback-misfit laws agent m inst s d on found misfit = ground (
    arith,
    checked_description-misfit cfg api (api.id_cluster m.m_desc.pmid) (api.id_item m.m_desc.pmid)
        inst s d on found misfit,
    misfit_code-ne laws d.domain inst,
  )
