-- ===== src/Pmda/Store.antt =====
-- pmda::on_store (include/pcp-cpp/pmda.hpp).
use pcp_pmda_cpp.Base.{ℕ, bit_and, ◌==◌, codes, List, [], ◌∷◌, Bool, true, false, if◌then◌else◌}
use pcp_pmda_cpp.Base.Int.{ℤ, pos}
use pcp_pmda_cpp.Pcp.{Pmapi}
use pcp_pmda_cpp.Exception.{Result, ok, err, pcp, exception}
use pcp_pmda_cpp.Metrics.Defs.{MetricDescription, storable_metric}
use pcp_pmda_cpp.Pmda.State.{
  Config, Pmda, Method, MetricId, Agent, ◌>>=◌, ◌>>◌, pure, lift, notify, entry, log_info,
}
use pcp_pmda_cpp.Pmda.Checked.{checked_description, caught}

-- pmValue: an instance, and its value in place or by pointer.
pub record PmValue : Type 0 where
  pub inst : ℕ
  pub lval : ℤ
  pub pval : ℕ

-- pmValueSet; where `numval` is not positive there are no values.
pub record PmValueSet : Type 0 where
  pub pmid : ℕ
  pub valfmt : ℕ
  pub vlist : List PmValue

-- `description.flags & pcp::storable_metric`
unfoldable pub is_storable : MetricDescription → Bool
is_storable d = if bit_and d.flags storable_metric == 0 then false else true

module _ {ℓ κ} {S : Type ℓ} {A : Type κ} (cfg : Config) (api : Pmapi) (agent : Agent S A) where
  -- The type to pass on for a value, after the checks that are compiled in.
  unfoldable pub storable_type : ℕ → ℕ → ℕ → Method S ℕ
  storable_type cluster item inst =
      if cfg.no_id_validity_checks
      then pure api.type_unknown
      else (checked_description cfg api cluster item inst >>= λ description.
          if is_storable description
          then pure description.type
          else lift (err (pcp (exception api api.err_permission []))))

  -- `store_value` on an int or on a block.
  unfoldable pub store_value : ℕ → MetricId → PmValue → Method S (Unit {0})
  store_value valfmt id v =
      if valfmt == api.val_insitu then agent.store_int id v.lval else agent.store_block id v.pval

  -- The body of the inner loop.
  unfoldable pub store_one : PmValueSet → PmValue → Method S (Unit {0})
  store_one set v = do
    let cluster = api.id_cluster set.pmid
    let item = api.id_item set.pmid
    t ← storable_type cluster item v.inst
    store_value set.valfmt
        (record { cluster = cluster; item = item; instance_id = v.inst; type = t; opaque = 0 }) v

  -- The inner loop; the Boolean is `any_stored`.
  unfoldable pub store_values : PmValueSet → List PmValue → Bool → Method S Bool
  store_values set [] any_stored = pure any_stored
  store_values set (v ∷ vs) any_stored = store_one set v >> store_values set vs true

  unfoldable pub store_sets : List PmValueSet → Bool → Method S Bool
  store_sets [] any_stored = pure any_stored
  store_sets (set ∷ sets) any_stored = do
    any_stored' ← store_values set set.vlist any_stored
    store_sets sets any_stored'

  unfoldable pub store_end : ℤ → Result Bool × Pmda S → ℤ × Pmda S
  store_end pmda_store (ok true, s) = (pos 0, s)
  store_end pmda_store (ok false, s) = (pmda_store, s)
  store_end pmda_store (err e, s) = caught api e s

  -- `pmda_store` is what pmdaStore returns for the result.
  unfoldable pub on_store : ℤ → List PmValueSet → Pmda S → ℤ × Pmda S
  on_store pmda_store sets s =
      store_end pmda_store (store_sets sets false (notify (entry log_info (codes "on store")) s))
