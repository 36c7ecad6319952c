-- ===== src/Pmda/StoreOne.antt =====
-- What on_store does with one value of a registered metric (include/pcp-cpp/pmda.hpp).
use pcp_pmda_cpp.Base.{
  bit_and, ◌==◌, ℕ, ap, ◌∙◌, true, ◌≡◌, codes, ◌∷◌, [], false, if◌then◌else◌, arith, some,
}
use pcp_pmda_cpp.Base.Int.{ℤ, pos}
use pcp_pmda_cpp.Pcp.{Pmapi}
use pcp_pmda_cpp.Exception.{Result, Thrown, ok, err, pcp, exception}
use pcp_pmda_cpp.Metrics.Defs.{storable_metric, MetricDescription}
use pcp_pmda_cpp.Metrics.Lookup.{lookup}
use pcp_pmda_cpp.Pmda.State.{Config, Pmda, MetricId, Agent, notify, entry, log_info, ◌>>=◌, ◌>>◌}
use pcp_pmda_cpp.Pmda.Validate.{IsInstanceOf}
use pcp_pmda_cpp.Pmda.Checked.{caught, checked_description-ok}
use pcp_pmda_cpp.Pmda.Store.{
  PmValue, PmValueSet, is_storable, storable_type, store_value, store_one, store_values, store_sets,
  store_end, on_store,
}

abbrev pub one_value : ℕ → ℕ → PmValue → PmValueSet
one_value pmid valfmt v = record { pmid = pmid; valfmt = valfmt; vlist = v ∷ [] }

module _ {ℓ κ} {S : Type ℓ} {A : Type κ} (cfg : Config) (api : Pmapi) (agent : Agent S A) where
  -- The identifier that on_store passes to store_value.
  abbrev pub store_id : PmValueSet → PmValue → MetricDescription → MetricId
  store_id set v d = record {
    cluster = api.id_cluster set.pmid;
    item = api.id_item set.pmid;
    instance_id = v.inst;
    type = d.type;
    opaque = 0;
  }

  -- With the checks compiled in, storing a value of a registered metric at an instance that fits it
  -- fails with PM_ERR_PERMISSION and changes nothing where the metric's flags do not have
  -- storable_metric. Otherwise it is what the agent's own store_value does, on the number of a value
  -- that is in place, and on the block of any other, for the metric's identifier at that instance
  -- with the type it was registered with.
  pub store_one-registered :
      (set : PmValueSet) (v : PmValue) (s : Pmda S) (d : MetricDescription)
      → cfg.no_id_validity_checks ≡ false
      → lookup (api.id_cluster set.pmid) (api.id_item set.pmid) s.supported_metrics ≡ some d
      → IsInstanceOf api s.heap d.domain v.inst
      → store_one cfg api agent set v s ≡ (
          if bit_and d.flags storable_metric == 0
          then (err (pcp (exception api api.err_permission [])), s)
          else if set.valfmt == api.val_insitu
          then agent.store_int (store_id set v d) v.lval s
          else agent.store_block (store_id set v d) v.pval s)
  unfolding store_one storable_type store_value is_storable
  store_one-registered set v s d on found valid = ground (
    arith,
    checked_description-ok cfg api (api.id_cluster set.pmid) (api.id_item set.pmid) v.inst s d on
        found valid,
  )

  -- A value in place reaches the agent's store_value on an int.
  pub store_one-insitu :
      (set : PmValueSet) (v : PmValue) (s : Pmda S) (d : MetricDescription)
      → cfg.no_id_validity_checks ≡ false
      → lookup (api.id_cluster set.pmid) (api.id_item set.pmid) s.supported_metrics ≡ some d
      → IsInstanceOf api s.heap d.domain v.inst
      → is_storable d ≡ true
      → set.valfmt ≡ api.val_insitu
      → store_one cfg api agent set v s ≡ agent.store_int (store_id set v d) v.lval s
  unfolding is_storable
  store_one-insitu set v s d on found valid storable insitu =
      store_one-registered set v s d on found valid ∙ ground (arith, storable, insitu)

  on_store-single :
      (pmda_store : ℤ) (pmid valfmt : ℕ) (v : PmValue) (s : Pmda S) (x : Result (Unit {0}) × Pmda S)
      → store_one cfg api agent
          (one_value pmid valfmt v)
          v
          (notify (entry log_info (codes "on store")) s)
        ≡ x
      → on_store cfg api agent pmda_store (one_value pmid valfmt v ∷ []) s
        ≡ store_end cfg api agent pmda_store (
            ((λ t. x)
                >> store_values cfg api agent (one_value pmid valfmt v) [] true
                >>= store_sets cfg api agent [])
              s)
  unfolding on_store store_sets store_values
  on_store-single pmda_store pmid valfmt v s x run =
      ap
        (λ y. store_end cfg api agent pmda_store (
          ((λ t. y)
              >> store_values cfg api agent (one_value pmid valfmt v) [] true
              >>= store_sets cfg api agent [])
            s))
        run

  -- A set of one value that is stored without an exception.
  pub on_store-one :
      (pmda_store : ℤ) (pmid valfmt : ℕ) (v : PmValue) (s s' : Pmda S)
      → store_one cfg api agent
          (one_value pmid valfmt v)
          v
          (notify (entry log_info (codes "on store")) s)
        ≡ (ok tt, s')
      → on_store cfg api agent pmda_store (one_value pmid valfmt v ∷ []) s ≡ (pos 0, s')
  unfolding store_sets store_values store_end
  on_store-one pmda_store pmid valfmt v s s' run =
      on_store-single pmda_store pmid valfmt v s (ok tt, s') run

  -- A set of one value whose store throws.
  pub on_store-thrown :
      (pmda_store : ℤ) (pmid valfmt : ℕ) (v : PmValue) (s s' : Pmda S) (e : Thrown)
      → store_one cfg api agent
          (one_value pmid valfmt v)
          v
          (notify (entry log_info (codes "on store")) s)
        ≡ (err e, s')
      → on_store cfg api agent pmda_store (one_value pmid valfmt v ∷ []) s ≡ caught api e s'
  unfolding store_end
  on_store-thrown pmda_store pmid valfmt v s s' e run =
      on_store-single pmda_store pmid valfmt v s (err e, s') run
