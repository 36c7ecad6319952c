-- ===== src/Simple/NowServed.antt =====
-- simple.now from the DSO's entry point to a fetch (example/simple/simple.cpp, on
-- include/pcp-cpp/pmda.hpp).
use mathlib.Core.Option.{some-injective}
use pcp_pmda_cpp.Base.{
  ℕ, ◌^◌, ◌≤◌, ◌<◌, ◌≡◌, ◌≢◌, refl, sym, ap, Text, ◌∙◌, subst, arith, false, true, is_some, List,
  Option, some,
}
use pcp_pmda_cpp.Base.Int.{ℤ, is_neg}
use pcp_pmda_cpp.Map.{find, nat_ord}
use pcp_pmda_cpp.Pcp.{Pmapi, PmidLaws, IsAscending}
use pcp_pmda_cpp.Exception.{Result, ok}
use pcp_pmda_cpp.Atom.Words.{to_unsigned}
use pcp_pmda_cpp.Atom.Defs.{Floats, Atom, ul, integer, atom}
use pcp_pmda_cpp.Atom.Convert.{atom-u32}
use pcp_pmda_cpp.Metrics.Lookup.{lookup}
use pcp_pmda_cpp.Cache.Defs.{CacheLibrary, LookupResult, lookup_id, require_active}
use pcp_pmda_cpp.Pmda.State.{Config, Pmda, static_result}
use pcp_pmda_cpp.Pmda.Fetch.{PmdaMetric, on_fetch_callback}
use pcp_pmda_cpp.Pmda.FetchLaws.{metric_id, on_fetch_callback-registered}
use pcp_pmda_cpp.Pmda.Init.{Tables}
use pcp_pmda_cpp.Pmda.LifeCycle.{Process}
use pcp_pmda_cpp.Pmda.Callbacks.{Defaults}
use pcp_pmda_cpp.Pmda.Preserves.{Preserves}
use pcp_pmda_cpp.Pmda.Serving.{Request, Serves, HasInstance}
use pcp_pmda_cpp.Simple.TimeNow.{Os, State, begin_fetch_values}
use pcp_pmda_cpp.Simple.TimeSlices.{Accepts}
use pcp_pmda_cpp.Simple.Metrics.{now}
use pcp_pmda_cpp.Simple.Agent.{simple, with_timenow, without_timenow}
use pcp_pmda_cpp.Simple.Now.{time_of_day, begin_fetch_values-fetch_value}
use pcp_pmda_cpp.Simple.Invariant.{IsSound, simple-Keeps}
use pcp_pmda_cpp.Simple.Program.{simple_init, simple_init-IsSound}

module _ {C : Type 0} (fl : Floats) (cfg : Config) (api : Pmapi) (lib : CacheLibrary C)
    (color_domain now_domain : ℕ) (slice : ℕ → ℕ) where
  -- What a fetch of simple.now returns.
  abbrev pub at_time : Os → ℕ → (ℤ × Option (Atom fl))
  at_time os k = (api.fetch_static, some (ul (to_unsigned (2 ^ 32) (time_of_day os k))))

  static_result-now :
      IsAscending api.types
      → (z : ℤ)
      → static_result api (atom fl api (now api color_domain now_domain).type (integer z))
        ≡ ok (record { atom = ul (to_unsigned (2 ^ 32) z); code = api.fetch_static })
  unfolding static_result now
  static_result-now asc z = rw (atom-u32 fl api asc z) refl

  -- simple.now is fetched while `os` tells the time, after simple_init, where the caller understands
  -- the protocol and pmdaDSO succeeds, after any sequence of requests through the table of callbacks,
  -- and after begin_fetch_values has returned, with a cache whose operations do not fail. At an
  -- instance of the metric's domain that the cache then has with the time slice `k`, the fetch
  -- returns PMDA_FETCH_STATIC and the seconds, minutes or hours that belong to that slice, modulo
  -- 2 ^ 32, with the checks compiled in and interface version 4 or later.
  pub simple_init-now :
      PmidLaws api
      → IsAscending api.types
      → Accepts lib
      → color_domain ≢ now_domain
      → slice 0 ≢ slice 1
      → slice 0 ≢ slice 2
      → slice 1 ≢ slice 2
      → (defaults : Defaults) (range_what : Text) (pmda_init : Tables → ℕ → ℕ)
        (start : Os × (fl.Double × fl.Double)) (understood : ℕ) (status : ℤ)
        (s s' after : Pmda (State fl C)) (p p' : Process (State fl C))
        (rs : List (Request × Result ℤ)) (os : Os) (run_times : fl.Double × fl.Double)
        (m : PmdaMetric) (k inst : ℕ) (r : LookupResult)
      → cfg.no_id_validity_checks ≡ false
      → 4 ≤ cfg.interface_version
      → cfg.interface_version ≤ understood
      → is_neg status ≡ false
      → m.m_desc.pmid ≡ api.pmda_pmid 2 4
      → inst ≢ api.indom_null
      → k < 3
      → r.opaque ≡ slice k
      → Serves cfg api defaults
          (simple fl api lib color_domain now_domain slice)
          (simple_init fl cfg api lib range_what color_domain now_domain slice pmda_init start
            understood status s p).1
          rs
          p'
      → p'.instance_ ≡ some s'
      → begin_fetch_values fl api lib now_domain slice os s' ≡ (ok tt, after)
      → is_some (find inst (after.heap now_domain).instances) ≡ true
      → lookup_id api lib
          (after.heap now_domain).pm_instance_domain
          inst
          require_active
          after.agent.1.cache
        ≡ ok r
      → on_fetch_callback cfg api
          (simple fl api lib color_domain now_domain slice (os, run_times))
          m
          inst
          after
        ≡ (at_time os k, after)
  unfolding HasInstance simple Preserves
  simple_init-now laws asc accepts differ d01 d02 d12 defaults range_what pmda_init start understood
        status s s' after p p' rs os run_times m k inst r on v u nonneg e here hk at served there
        run registered known =
      let (s'', there', sound') =
        simple_init-IsSound fl cfg api lib range_what color_domain now_domain slice pmda_init start
          differ defaults understood status s p p' rs u nonneg served in
      let sound =
        subst (IsSound fl api color_domain now_domain) (some-injective _ _ (sym there' ∙ there))
          sound' in
      let kept =
        (simple-Keeps fl api lib color_domain now_domain slice differ (os, run_times)).begin_keeps
          s' sound in
      let id = metric_id 2 4 inst (now api color_domain now_domain) m.m_user in
      let fetched =
        begin_fetch_values-fetch_value fl api lib now_domain slice accepts d01 d02 d12 os s' after
          run_times id k r run refl known at hk in
      on_fetch_callback-registered cfg api laws
        (simple fl api lib color_domain now_domain slice (os, run_times)) 2 4 inst m after after
        (now api color_domain now_domain)
        (record { atom = ul (to_unsigned (2 ^ 32) (time_of_day os k)); code = api.fetch_static }) on
        v (omega arith) (omega arith) e
        (ap (λ x. lookup 2 4 x.1.supported_metrics) (sym run) ∙ kept.metrics 2 4) (here, registered)
        (ap (λ x. (x.0, with_timenow fl after.agent.1 x.1))
          (fetched ∙ ap (λ x. (x, without_timenow fl after)) (static_result-now asc _)))
