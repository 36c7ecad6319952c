-- ===== src/Tests/Callbacks.antt =====
-- The callbacks of the small agent.
use pcp_pmda_cpp.Base.{c_str, decimal, ℕ, ◌*◌, ◌^◌, ◌≡◌, refl, ◌∷◌, [], codes, none, some, arith}
use pcp_pmda_cpp.Base.Int.{pos, decimal_ℤ}
use pcp_pmda_cpp.Map.{find, nat_ord}
use pcp_pmda_cpp.Pcp.{pcp4, pcp4-PmidLaws, pcp4-ErrorLaws}
use pcp_pmda_cpp.Exception.{err, pcp, exception}
use pcp_pmda_cpp.Metrics.Lookup.{lookup}
use pcp_pmda_cpp.Pmda.State.{notify, entry, at_position, log_err, log_debug, log_info}
use pcp_pmda_cpp.Pmda.Validate.{validate_instance, Verdict, validate_instance-Verdict}
use pcp_pmda_cpp.Pmda.Fetch.{PmdaMetric, on_fetch_callback}
use pcp_pmda_cpp.Pmda.FetchLaws.{
  on_fetch_callback-registered, on_fetch_callback-unregistered, on_fetch_callback-misfit,
}
use pcp_pmda_cpp.Pmda.Store.{PmValueSet, on_store, store_one, is_storable}
use pcp_pmda_cpp.Pmda.StoreLaws.{Ended, requests, on_store-Ended}
use pcp_pmda_cpp.Pmda.StoreOne.{store_one-registered}
use pcp_pmda_cpp.Pmda.HelpText.{on_text}
use pcp_pmda_cpp.Pmda.HelpTextLaws.{on_text-metric, on_text-instance}
use pcp_pmda_cpp.Tests.Fixtures.{config, heap, colour, now, agent, ready, red}

-- The entry of a metric table for a cluster and an item.
abbrev mdesc : ℕ → ℕ → PmdaMetric
mdesc c i = record {
  m_user = 77;
  m_desc = record { indom = 0; pmid = pcp4.pmda_pmid c i; sem = 0; type = 0; units = 0 };
}

validate_instance-Verdict_example :
    Verdict pcp4 heap (some 16) 2 (validate_instance config pcp4 heap colour 2)
validate_instance-Verdict_example = validate_instance-Verdict config refl pcp4 heap colour 2

on_fetch_callback-registered_example :
    on_fetch_callback config pcp4 agent (mdesc 2 1) 2 ready
    ≡ ((pos 1, some 102), record ready { agent = 1 })
unfolding lookup find
on_fetch_callback-registered_example =
    on_fetch_callback-registered config pcp4 pcp4-PmidLaws agent 2 1 2 (mdesc 2 1) ready
      (record ready { agent = 1 }) colour (record { atom = 102; code = pos 1 }) refl (omega arith)
      (omega arith) (omega arith) refl refl (omega arith, refl) refl

on_fetch_callback-unregistered_example :
    on_fetch_callback config pcp4 agent (mdesc 2 3) 2 ready
    ≡ ((pcp4.err_pmid, none), notify (at_position log_debug) ready)
unfolding lookup find
on_fetch_callback-unregistered_example =
    on_fetch_callback-unregistered config pcp4 agent (mdesc 2 3) 2 ready refl refl

on_fetch_callback-misfit_example :
    on_fetch_callback config pcp4 agent (mdesc 2 1) 1 ready
    ≡ ((pcp4.err_inst, none), notify (entry log_err (codes "-12360")) ready)
unfolding lookup find decimal_ℤ decimal
on_fetch_callback-misfit_example =
    on_fetch_callback-misfit config pcp4 pcp4-ErrorLaws agent (mdesc 2 1) 1 ready colour refl refl
      (λ h. ground arith)

-- Two stores to the colour, then one to a metric that is not storable.
abbrev values : PmValueSet
values = record {
  pmid = pcp4.pmda_pmid 2 1;
  valfmt = 0;
  vlist =
      record { inst = 0; lval = pos 7; pval = 0 }
      ∷ record { inst = 2; lval = pos 8; pval = 0 }
      ∷ [];
}

abbrev refused : PmValueSet
refused = record {
  pmid = pcp4.pmda_pmid 2 4;
  valfmt = 0;
  vlist = record { inst = 0xffff_ffff; lval = pos 9; pval = 0 } ∷ [];
}

on_store-Ended_example :
    Ended config pcp4 agent
      (requests (values ∷ refused ∷ []))
      pcp4.err_permission
      (notify (entry log_info (codes "on store")) ready)
      (on_store config pcp4 agent pcp4.err_permission (values ∷ refused ∷ []) ready)
on_store-Ended_example =
    on_store-Ended config pcp4 agent pcp4.err_permission (values ∷ refused ∷ []) ready

store_one-registered_example :
    store_one config pcp4 agent refused
      (record { inst = 0xffff_ffff; lval = pos 9; pval = 0 })
      ready
    ≡ (err (pcp (exception pcp4 pcp4.err_permission [])), ready)
unfolding lookup find is_storable
store_one-registered_example =
    store_one-registered config pcp4 agent refused
      (record { inst = 0xffff_ffff; lval = pos 9; pval = 0 }) ready now refl refl refl

on_text-metric_example :
    on_text pcp4 (pcp4.err_text, none) (pcp4.pmda_pmid 2 4) 4 ready
    ≡ ((pos 0, some (codes "The time now")), ready)
unfolding lookup find c_str
on_text-metric_example =
    on_text-metric pcp4 (pcp4.err_text, none) (pcp4.pmda_pmid 2 4) 4 ready now refl refl

on_text-instance_example :
    on_text pcp4 (pcp4.err_text, none) (3 * 2 ^ 22) 8 ready ≡ ((pos 0, some (codes "Red")), ready)
unfolding find c_str
on_text-instance_example =
    on_text-instance pcp4 (pcp4.err_text, none) (3 * 2 ^ 22) 8 ready 16 red refl refl refl refl
