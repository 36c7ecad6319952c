-- ===== src/Simple/Now.antt =====
-- simple.now after a begin_fetch_values (example/simple/simple.cpp).
use pcp_pmda_cpp.Base.{ℕ, zero, suc, ◌<◌, ◌≡◌, ◌≢◌, refl, sym, ap, ◌∙◌, subst, arith}
use pcp_pmda_cpp.Base.Int.{ℤ}
use pcp_pmda_cpp.Pcp.{Pmapi}
use pcp_pmda_cpp.Exception.{ok}
use pcp_pmda_cpp.Atom.Defs.{Floats, integer, atom}
use pcp_pmda_cpp.Cache.Defs.{CacheLibrary, LookupResult, lookup_id, require_active}
use pcp_pmda_cpp.Pmda.State.{Pmda, MetricId, static_result}
use pcp_pmda_cpp.Simple.Defs.{Surroundings, fetch_value, fetch_now}
use pcp_pmda_cpp.Simple.Agent.{surroundings, without_timenow}
use pcp_pmda_cpp.Simple.TimeNow.{Os, State, begin_fetch_values}
use pcp_pmda_cpp.Simple.TimeSlices.{Accepts}
use pcp_pmda_cpp.Simple.BeginFetch.{Begun, begin_fetch_values-Begun}

-- The fields of the time of day, in the order of the time slices.
abbrev pub time_of_day : Os → ℕ → ℤ
time_of_day os zero = os.tm_sec
time_of_day os (suc zero) = os.tm_min
time_of_day os (suc (suc k)) = os.tm_hour

module _ {C : Type 0} (fl : Floats) (api : Pmapi) (lib : CacheLibrary C) (now_domain : ℕ)
    (slice : ℕ → ℕ) where
  Begun-field :
      (accepts : Accepts lib) (os : Os) (s s' : Pmda (State fl C)) (k : ℕ)
      → k < 3
      → Begun fl api lib now_domain slice accepts os s s'
      → s'.agent.1.tm_field (slice k) ≡ time_of_day os k
  Begun-field accepts os s s' zero h b = b.sec_is
  Begun-field accepts os s s' (suc zero) h b = b.min_is
  Begun-field accepts os s s' (suc (suc zero)) h b = b.hour_is
  Begun-field accepts os s s' (suc (suc (suc k))) h b = ground arith

  fetch_now-found :
      (env : Surroundings fl) (domain : ℕ) (id : MetricId) (r : LookupResult) (z : ℤ)
      → lookup_id api env.library domain id.instance_id require_active env.cache ≡ ok r
      → env.tm_field r.opaque ≡ z
      → fetch_now fl api env domain id ≡ static_result api (atom fl api id.type (integer z))
  unfolding fetch_now
  fetch_now-found env domain id r z e f = rw (fetch_now, e, f) refl

  -- When begin_fetch_values has returned, with a cache whose operations do not fail, a fetch in
  -- cluster 2 at an instance that the cache has with the time slice `k` gives the field of the
  -- time of day that belongs to that slice, converted to the metric's type.
  pub begin_fetch_values-fetch_value :
      Accepts lib
      → slice 0 ≢ slice 1
      → slice 0 ≢ slice 2
      → slice 1 ≢ slice 2
      → (os : Os) (s s' : Pmda (State fl C)) (run_times : fl.Double × fl.Double) (id : MetricId)
        (k : ℕ) (r : LookupResult)
      → begin_fetch_values fl api lib now_domain slice os s ≡ (ok tt, s')
      → id.cluster ≡ 2
      → lookup_id api lib
          (s'.heap now_domain).pm_instance_domain
          id.instance_id
          require_active
          s'.agent.1.cache
        ≡ ok r
      → r.opaque ≡ slice k
      → k < 3
      → fetch_value fl api
          (surroundings fl lib now_domain s'.agent.1 run_times)
          id
          (without_timenow fl s')
        ≡ (
          static_result api (atom fl api id.type (integer (time_of_day os k))),
          without_timenow fl s',
        )
  unfolding fetch_value
  begin_fetch_values-fetch_value accepts d01 d02 d12 os s s' run_times id k r run c found at h =
      let (t, run', b) =
        begin_fetch_values-Begun fl api lib now_domain slice accepts d01 d02 d12 os s in
      let same : t ≡ s' = ap (λ p. p.1) (sym run' ∙ run) in
      let begun = subst (Begun fl api lib now_domain slice accepts os s) same b in
      rw c (
        ap (λ x. (x, without_timenow fl s'))
          (fetch_now-found (surroundings fl lib now_domain s'.agent.1 run_times) _ id r
            (time_of_day os k) found
            (ap s'.agent.1.tm_field at ∙ Begun-field accepts os s s' k h begun)))
