-- ===== src/Simple/Typed.antt =====
-- The atoms of example/simple/simple.cpp are of the type that fetch_value is asked for.
use pcp_pmda_cpp.Base.{ℕ, ◌==◌, Bool-cases, inl, inr}
use pcp_pmda_cpp.Pcp.{Pmapi}
use pcp_pmda_cpp.Exception.{Result, ok, err}
use pcp_pmda_cpp.Atom.Defs.{Floats, atom, integer}
use pcp_pmda_cpp.Cache.Defs.{CacheLibrary, LookupResult, lookup_id, require_active}
use pcp_pmda_cpp.Pmda.State.{Pmda, MetricId, static_result}
use pcp_pmda_cpp.Pmda.Typed.{IsOfType, IsTyped, static_result-IsOfType}
use pcp_pmda_cpp.Simple.Defs.{Simple, Surroundings, fetch_now, fetch_value}
use pcp_pmda_cpp.Simple.TimeNow.{Os}
use pcp_pmda_cpp.Simple.Agent.{simple, surroundings, without_timenow}

module _ (fl : Floats) (api : Pmapi) where
  fetch_now-IsOfType :
      (env : Surroundings fl) (domain : ℕ) (id : MetricId)
      → IsOfType fl api id.type (fetch_now fl api env domain id)
  unfolding fetch_now IsOfType
  fetch_now-IsOfType env domain id =
      by_lookup (lookup_id api env.library domain id.instance_id require_active env.cache)
    where
      by_lookup :
          (r : Result LookupResult)
          → IsOfType fl api id.type (elim r [
            | ok r ↦ static_result api (atom fl api id.type (integer (env.tm_field r.opaque)))
            | err e ↦ err e
          ])
      by_lookup (ok r) = static_result-IsOfType fl api id.type _
      by_lookup (err e) = tt

  fetch_value-IsOfType :
      (env : Surroundings fl) (id : MetricId) (s : Pmda (Simple fl))
      → IsOfType fl api id.type (fetch_value fl api env id s).0
  unfolding fetch_value
  fetch_value-IsOfType env id s = elim (Bool-cases (id.cluster == 1)) [
    | inl e ↦ rw e (static_result-IsOfType fl api id.type _)
    | inr e ↦ elim (Bool-cases (id.cluster == 2)) [
      | inl f ↦ rw (e, f) (fetch_now-IsOfType env _ id)
      | inr f ↦ elim (Bool-cases (id.item == 0)) [
        | inl g ↦ rw (e, f, g) (static_result-IsOfType fl api id.type _)
        | inr g ↦ rw (e, f, g) (static_result-IsOfType fl api id.type _)
      ]
    ]
  ]

  pub simple-IsTyped :
      {C : Type 0} (lib : CacheLibrary C) (color_domain now_domain : ℕ) (slice : ℕ → ℕ)
      (w : Os × (fl.Double × fl.Double))
      → IsTyped fl api (simple fl api lib color_domain now_domain slice w)
  unfolding IsTyped simple
  simple-IsTyped lib color_domain now_domain slice (os, run_times) id s =
      fetch_value-IsOfType (surroundings fl lib now_domain s.agent.1 run_times) id
        (without_timenow fl s)
