-- ===== src/Pmda/Agrees.antt =====
-- Two agents whose methods do the same on what the checks of pcp::pmda let through
-- (include/pcp-cpp/pmda.hpp).
use pcp_pmda_cpp.Base.{ℕ, ◌≡◌, refl, ap, ◌∙◌, sym, true, false, Bool-cases, inl, inr, some, ◌==◌}
use pcp_pmda_cpp.Base.Int.{ℤ}
use pcp_pmda_cpp.Pcp.{Pmapi}
use pcp_pmda_cpp.Exception.{Result, ok, err}
use pcp_pmda_cpp.Metrics.Defs.{MetricDescription}
use pcp_pmda_cpp.Metrics.Lookup.{lookup}
use pcp_pmda_cpp.Pmda.State.{Config, Pmda, MetricId, Agent}
use pcp_pmda_cpp.Pmda.Fetch.{PmdaMetric, fetch_end, on_fetch_callback}
use pcp_pmda_cpp.Pmda.Store.{PmValue, PmValueSet, is_storable, store_value, store_one}
use pcp_pmda_cpp.Pmda.Validate.{IsInstanceOf}
use pcp_pmda_cpp.Pmda.LetThrough.{
  IsLetThrough, checked_description-IsLetThrough, fetch_checked, fetch_metric-checked,
  store_checked, store_one-checked,
}

-- The agents do the same on members that satisfy `P`, at identifiers that the checks let through.
pub record Agrees {ℓ κ μ} {S : Type ℓ} {A : Type κ} (api : Pmapi) (P : Pmda S → Type μ)
    (a b : Agent S A) : Type (ℓ ⊔ κ ⊔ μ) where
  pub begin_agrees : (s : Pmda S) → P s → a.begin_fetch_values s ≡ b.begin_fetch_values s
  pub fetch_agrees :
      (id : MetricId) (s : Pmda S) (d : MetricDescription)
      → P s
      → lookup id.cluster id.item s.supported_metrics ≡ some d
      → IsInstanceOf api s.heap d.domain id.instance_id
      → a.fetch_value id s ≡ b.fetch_value id s
  pub int_agrees :
      (id : MetricId) (v : ℤ) (s : Pmda S) (d : MetricDescription)
      → P s
      → lookup id.cluster id.item s.supported_metrics ≡ some d
      → IsInstanceOf api s.heap d.domain id.instance_id
      → is_storable d ≡ true
      → a.store_int id v s ≡ b.store_int id v s
  pub block_agrees :
      (id : MetricId) (v : ℕ) (s : Pmda S) (d : MetricDescription)
      → P s
      → lookup id.cluster id.item s.supported_metrics ≡ some d
      → IsInstanceOf api s.heap d.domain id.instance_id
      → is_storable d ≡ true
      → a.store_block id v s ≡ b.store_block id v s

module _ {ℓ κ μ} {S : Type ℓ} {A : Type κ} (cfg : Config) (api : Pmapi)
    (on : cfg.no_id_validity_checks ≡ false) (P : Pmda S → Type μ) (a b : Agent S A)
    (agrees : Agrees api P a b) where
  fetch_checked-agrees :
      (m : PmdaMetric) (inst : ℕ) (s : Pmda S) (r : Result MetricDescription)
      → P s
      → IsLetThrough cfg api on (api.id_cluster m.m_desc.pmid) (api.id_item m.m_desc.pmid) inst s r
      → fetch_checked cfg api a on m inst s r ≡ fetch_checked cfg api b on m inst s r
  unfolding fetch_checked IsLetThrough
  fetch_checked-agrees m inst s (ok d) p (found, valid) = agrees.fetch_agrees _ s d p found valid
  fetch_checked-agrees m inst s (err e) p l = refl

  pub on_fetch_callback-agrees :
      (m : PmdaMetric) (inst : ℕ) (s : Pmda S)
      → P s
      → on_fetch_callback cfg api a m inst s ≡ on_fetch_callback cfg api b m inst s
  unfolding on_fetch_callback
  on_fetch_callback-agrees m inst s p =
      let (r, run, l) =
        checked_description-IsLetThrough cfg api on (api.id_cluster m.m_desc.pmid)
          (api.id_item m.m_desc.pmid) inst s in
      ap (fetch_end cfg api) (
        fetch_metric-checked cfg api a on m inst s r run
        ∙ fetch_checked-agrees m inst s r p l
        ∙ sym (fetch_metric-checked cfg api b on m inst s r run))

  store_checked-agrees :
      (set : PmValueSet) (v : PmValue) (s : Pmda S) (r : Result MetricDescription)
      → P s
      → IsLetThrough cfg api on (api.id_cluster set.pmid) (api.id_item set.pmid) v.inst s r
      → store_checked cfg api a on set v s r ≡ store_checked cfg api b on set v s r
  unfolding store_checked IsLetThrough store_value
  store_checked-agrees set v s (ok d) p (found, valid) = elim (Bool-cases (is_storable d)) [
    | inl e ↦ rw e (elim (Bool-cases (set.valfmt == api.val_insitu)) [
      | inl f ↦ rw f (agrees.int_agrees _ v.lval s d p found valid e)
      | inr f ↦ rw f (agrees.block_agrees _ v.pval s d p found valid e)
    ])
    | inr e ↦ rw e refl
  ]
  store_checked-agrees set v s (err e) p l = refl

  pub store_one-agrees :
      (set : PmValueSet) (v : PmValue) (s : Pmda S)
      → P s
      → store_one cfg api a set v s ≡ store_one cfg api b set v s
  store_one-agrees set v s p =
      let (r, run, l) =
        checked_description-IsLetThrough cfg api on (api.id_cluster set.pmid) (api.id_item set.pmid)
          v.inst s in
      store_one-checked cfg api a on set v s r run
      ∙ store_checked-agrees set v s r p l
      ∙ sym (store_one-checked cfg api b on set v s r run)
