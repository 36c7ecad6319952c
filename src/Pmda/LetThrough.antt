-- ===== src/Pmda/LetThrough.antt =====
-- What the checks of pcp::pmda let through, and what the callbacks come to after them
-- (include/pcp-cpp/pmda.hpp).
use pcp_pmda_cpp.Base.{
  ℕ, ◌≡◌, refl, false, Option, Option-cases, inl, inr, [], none, some, arith, if◌then◌else◌,
}
use pcp_pmda_cpp.Pcp.{Pmapi}
use pcp_pmda_cpp.Exception.{Result, ok, err, pcp, out_of_range, exception}
use pcp_pmda_cpp.Metrics.Defs.{MetricDescription}
use pcp_pmda_cpp.Metrics.Lookup.{lookup, at_metric-lookup}
use pcp_pmda_cpp.Pmda.State.{Config, Pmda, FetchValueResult, Agent}
use pcp_pmda_cpp.Pmda.Fetch.{PmdaMetric, expected_type, fetch_metric}
use pcp_pmda_cpp.Pmda.FetchLaws.{metric_id}
use pcp_pmda_cpp.Pmda.Store.{
  PmValue, PmValueSet, is_storable, storable_type, store_value, store_one,
}
use pcp_pmda_cpp.Pmda.StoreOne.{store_id}
use pcp_pmda_cpp.Pmda.Validate.{validate_instance, IsInstanceOf, Verdict, validate_instance-Verdict}
use pcp_pmda_cpp.Pmda.Checked.{checked_description, checked_description-none}

module _ {ℓ} {S : Type ℓ} (cfg : Config) (api : Pmapi)
    (on : cfg.no_id_validity_checks ≡ false) where
  -- What the checks found, where they let an identifier through.
  unfoldable pub IsLetThrough : ℕ → ℕ → ℕ → Pmda S → Result MetricDescription → Type 0
  IsLetThrough c i inst s (ok d) =
      (lookup c i s.supported_metrics ≡ some d) × IsInstanceOf api s.heap d.domain inst
  IsLetThrough c i inst s (err e) = Unit {0}

  Verdict-IsInstanceOf :
      (s : Pmda S) (d : MetricDescription) (inst : ℕ) (u : Unit {0})
      → Verdict api s.heap d.domain inst (ok u)
      → IsInstanceOf api s.heap d.domain inst
  Verdict-IsInstanceOf s d inst u v = go d.domain v
    where
      go : (o : Option ℕ) → Verdict api s.heap o inst (ok u) → IsInstanceOf api s.heap o inst
      go none v = v
      go (some p) v = v

  checked_description-validated :
      (c i inst : ℕ) (s : Pmda S) (d : MetricDescription) (v : Result (Unit {0}))
      → lookup c i s.supported_metrics ≡ some d
      → validate_instance cfg api s.heap d inst ≡ v
      → Verdict api s.heap d.domain inst v
      → (r : Result MetricDescription) × (checked_description cfg api c i inst s ≡ (r, s))
        × IsLetThrough c i inst s r
  unfolding checked_description IsLetThrough
  checked_description-validated c i inst s d (ok u) e run v = (
    ok d,
    ground (arith, at_metric-lookup c i s.supported_metrics d e, run),
    (e, Verdict-IsInstanceOf s d inst u v),
  )
  checked_description-validated c i inst s d (err x) e run v =
      (err x, ground (arith, at_metric-lookup c i s.supported_metrics d e, run), tt)

  -- The checks change nothing.
  pub checked_description-IsLetThrough :
      (c i inst : ℕ) (s : Pmda S)
      → (r : Result MetricDescription) × (checked_description cfg api c i inst s ≡ (r, s))
        × IsLetThrough c i inst s r
  unfolding IsLetThrough
  checked_description-IsLetThrough c i inst s =
      elim (Option-cases (lookup c i s.supported_metrics)) [
        | inl e ↦ (err out_of_range, checked_description-none cfg api c i inst s e, tt)
        | inr (d, e) ↦
            checked_description-validated c i inst s d _ e refl
              (validate_instance-Verdict cfg on api s.heap d inst)
      ]

-- What the callbacks come to after the checks.
module _ {ℓ κ} {S : Type ℓ} {A : Type κ} (cfg : Config) (api : Pmapi) (agent : Agent S A)
    (on : cfg.no_id_validity_checks ≡ false) where
  unfoldable pub fetch_checked :
      PmdaMetric → ℕ → Pmda S → Result MetricDescription → Result (FetchValueResult A) × Pmda S
  fetch_checked m inst s (ok d) =
      agent.fetch_value
        (metric_id (api.id_cluster m.m_desc.pmid) (api.id_item m.m_desc.pmid) inst d m.m_user) s
  fetch_checked m inst s (err e) = (err e, s)

  pub fetch_metric-checked :
      (m : PmdaMetric) (inst : ℕ) (s : Pmda S) (r : Result MetricDescription)
      → checked_description cfg api
          (api.id_cluster m.m_desc.pmid)
          (api.id_item m.m_desc.pmid)
          inst
          s
        ≡ (r, s)
      → fetch_metric cfg api agent m inst s ≡ fetch_checked m inst s r
  unfolding fetch_metric expected_type fetch_checked
  fetch_metric-checked m inst s (ok d) run = ground (arith, on, run)
  fetch_metric-checked m inst s (err e) run = ground (arith, on, run)

  unfoldable pub store_checked :
      PmValueSet → PmValue → Pmda S → Result MetricDescription → Result (Unit {0}) × Pmda S
  store_checked set v s (ok d) =
      if is_storable d
      then store_value cfg api agent set.valfmt (store_id cfg api agent set v d) v s
      else (err (pcp (exception api api.err_permission [])), s)
  store_checked set v s (err e) = (err e, s)

  pub store_one-checked :
      (set : PmValueSet) (v : PmValue) (s : Pmda S) (r : Result MetricDescription)
      → checked_description cfg api (api.id_cluster set.pmid) (api.id_item set.pmid) v.inst s
        ≡ (r, s)
      → store_one cfg api agent set v s ≡ store_checked set v s r
  unfolding store_one storable_type store_checked
  store_one-checked set v s (ok d) run = ground (arith, on, run)
  store_one-checked set v s (err e) run = ground (arith, on, run)
