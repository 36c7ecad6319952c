-- ===== src/Pmda/Validate.antt =====
-- pmda::validate_instance (include/pcp-cpp/pmda.hpp).
use pcp_pmda_cpp.Base.{
  ℕ, ap, ◌≡◌, ◌≢◌, true, false, Option, none, some, [], ◌==◌, leb, if◌then◌else◌, arith, ◌⊎◌, inl,
  inr, subst, not, is_some, Option-cases,
}
use pcp_pmda_cpp.Base.Int.{ℤ, eq_ℤ}
use pcp_pmda_cpp.Map.{find, count, nat_ord}
use pcp_pmda_cpp.Pcp.{Pmapi, ErrorLaws}
use pcp_pmda_cpp.Exception.{Result, ok, err, pcp, exception}
use pcp_pmda_cpp.InstanceDomain.{InstanceDomain}
use pcp_pmda_cpp.Metrics.Defs.{MetricDescription}
use pcp_pmda_cpp.Pmda.State.{Config}

unfoldable pub validate_instance :
    Config → Pmapi → (ℕ → InstanceDomain) → MetricDescription → ℕ → Result (Unit {0})
validate_instance cfg api heap description inst =
    if cfg.no_id_validity_checks
    then ok tt
    else if not (inst == api.indom_null)
    then elim description.domain [
      | none ↦ err (pcp (exception api api.err_indom []))
      | some p ↦
          if leb (count inst (heap p).instances) 0
          then err (pcp (exception api api.err_inst []))
          else ok tt
    ]
    else elim description.domain [
      | none ↦ ok tt
      | some p ↦ err (pcp (exception api api.err_indom []))
    ]

-- A metric of an instance domain goes with an instance that is registered there, and a metric
-- without one with PM_IN_NULL.
abbrev pub IsInstanceOf : Pmapi → (ℕ → InstanceDomain) → Option ℕ → ℕ → Type 0
IsInstanceOf api heap none inst = inst ≡ api.indom_null
IsInstanceOf api heap (some p) inst =
    (inst ≢ api.indom_null) × (is_some (find inst (heap p).instances) ≡ true)

module _ (cfg : Config) (checked : cfg.no_id_validity_checks ≡ false) where
  pub validate_instance-ok :
      (api : Pmapi) (heap : ℕ → InstanceDomain) (d : MetricDescription) (inst : ℕ)
      → IsInstanceOf api heap d.domain inst
      → validate_instance cfg api heap d inst ≡ ok tt
  unfolding validate_instance
  validate_instance-ok api heap d inst h = elim (Option-cases d.domain) [
    | inl e ↦ ground (arith, subst (λ o. IsInstanceOf api heap o inst) e h)
    | inr (p, e) ↦ ground (arith, subst (λ o. IsInstanceOf api heap o inst) e h)
  ]

-- What a result of validate_instance says of a metric's domain and an instance.
abbrev pub Verdict : Pmapi → (ℕ → InstanceDomain) → Option ℕ → ℕ → Result (Unit {0}) → Type 0
Verdict api heap none inst (ok _) = inst ≡ api.indom_null
Verdict api heap none inst (err e) =
    (inst ≢ api.indom_null) × (e ≡ pcp (exception api api.err_indom []))
Verdict api heap (some p) inst (ok _) =
    (inst ≢ api.indom_null) × (is_some (find inst (heap p).instances) ≡ true)
Verdict api heap (some p) inst (err e) =
    ((inst ≡ api.indom_null) × (e ≡ pcp (exception api api.err_indom [])))
    ⊎ ((inst ≢ api.indom_null)
        × (find inst (heap p).instances ≡ none)
        × (e ≡ pcp (exception api api.err_inst [])))

-- With the checks compiled in, validate_instance accepts PM_IN_NULL for a metric without an
-- instance domain, and a registered instance for a metric with one. It throws PM_ERR_INDOM where
-- an instance is given and none is wanted, or wanted and none is given, and PM_ERR_INST for one
-- that is not registered.
pub validate_instance-Verdict :
    (cfg : Config)
    → cfg.no_id_validity_checks ≡ false
    → (api : Pmapi) (heap : ℕ → InstanceDomain) (d : MetricDescription) (inst : ℕ)
    → Verdict api heap d.domain inst (validate_instance cfg api heap d inst)
unfolding validate_instance
validate_instance-Verdict cfg c api heap d inst = elim (Option-cases d.domain) [
  | inl e ↦ rw e (ground arith)
  | inr (p, e) ↦ rw e (ground arith)
]

-- The code for an instance that does not fit a metric's domain.
abbrev pub misfit_code : Pmapi → Option ℕ → ℕ → ℤ
misfit_code api none inst = api.err_indom
misfit_code api (some p) inst = if inst == api.indom_null then api.err_indom else api.err_inst

pub misfit_code-ne :
    {api : Pmapi}
    → ErrorLaws api
    → (o : Option ℕ) (inst : ℕ) → eq_ℤ (misfit_code api o inst) api.fetch_novalues ≡ false
misfit_code-ne {api} laws none inst =
    ground (arith, laws.indom_neg, laws.inst_neg, laws.novalues_nonneg)
misfit_code-ne laws (some p) inst =
    ground (arith, laws.indom_neg, laws.inst_neg, laws.novalues_nonneg)

pub validate_instance-misfit :
    (cfg : Config)
    → cfg.no_id_validity_checks ≡ false
    → (api : Pmapi) (heap : ℕ → InstanceDomain) (d : MetricDescription) (inst : ℕ)
    → ¬ IsInstanceOf api heap d.domain inst
    → validate_instance cfg api heap d inst
      ≡ err (pcp (exception api (misfit_code api d.domain inst) []))
validate_instance-misfit cfg c api heap d inst h =
    misfit_from d.domain (validate_instance cfg api heap d inst)
      (validate_instance-Verdict cfg c api heap d inst) h
  where
    misfit_from :
        (o : Option ℕ) (r : Result (Unit {0}))
        → Verdict api heap o inst r
        → ¬ IsInstanceOf api heap o inst
        → r ≡ err (pcp (exception api (misfit_code api o inst) []))
    misfit_from none (ok x) v n = absurd (n v)
    misfit_from none (err e) v n = ap err v.1
    misfit_from (some p) (ok x) v n = absurd (n v)
    misfit_from (some p) (err e) (inl v) n = ground arith
    misfit_from (some p) (err e) (inr v) n = ground arith
