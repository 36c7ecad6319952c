-- ===== src/Simple/Defs.antt =====
-- The members of the class simple, its constructor, fetch_value and store_value
-- (example/simple/simple.cpp). The cache, localtime and __pmProcessRunTimes are parameters.
use pcp_pmda_cpp.Base.{
  ℕ, ◌+◌, ◌%◌, ◌^◌, ltb, ◌==◌, if◌then◌else◌, List, [], ◌∷◌, get_elem?, set, or_else, codes,
}
use pcp_pmda_cpp.Base.Int.{ℤ, pos, is_neg, ltb_ℤ}
use pcp_pmda_cpp.Pcp.{Pmapi}
use pcp_pmda_cpp.Exception.{Result, ok, err, pcp, exception}
use pcp_pmda_cpp.InstanceDomain.{InstanceDomain, instance_domain, call_domain, call_name}
use pcp_pmda_cpp.Atom.Words.{to_unsigned}
use pcp_pmda_cpp.Atom.Defs.{Floats, Atom, integer, double, atom}
use pcp_pmda_cpp.Cache.Defs.{CacheLibrary, lookup_id, require_active}
use pcp_pmda_cpp.Pmda.State.{Method, MetricId, FetchValueResult, static_result}

-- The members, and the variables that are static in fetch_value.
pub record Simple (fl : Floats) : Type 0 where
  pub numfetch : ℕ
  pub rgb : List ℕ
  pub oldfetch : ℕ
  pub usr : fl.Double
  pub sys : fl.Double

-- What the agent reads of its surroundings: the cache, the seconds, minutes and hours that
-- `timeslices` holds, by address, the address of now_domain, and what __pmProcessRunTimes writes.
pub record Surroundings (fl : Floats) : Type 1 where
  pub Cache : Type 0
  pub library : CacheLibrary Cache
  pub cache : Cache
  pub tm_field : ℕ → ℤ
  pub now_domain : ℕ
  pub run_times : fl.Double × fl.Double

-- The constructor's domains, and its members; the static variables are 0.
unfoldable pub new_color_domain : Pmapi → InstanceDomain
unfolding instance_domain call_domain call_name
new_color_domain api = call_name 2 (codes "blue") [] [] (
    call_name 1 (codes "green") [] []
      (call_name 0 (codes "red") [] [] (call_domain api 0 (instance_domain api api.indom_null))))

unfoldable pub new_now_domain : Pmapi → InstanceDomain
unfolding instance_domain call_domain
new_now_domain api = call_domain api 1 (instance_domain api api.indom_null)

module _ (fl : Floats) where
  unfoldable pub new_simple : Simple fl
  new_simple = record {
    numfetch = 0;
    rgb = 0 ∷ 100 ∷ 200 ∷ [];
    oldfetch = 0;
    usr = fl.double_of_int (pos 0);
    sys = fl.double_of_int (pos 0);
  }

  -- The run times, read once for each fetch.
  unfoldable pub refresh_times : Surroundings fl → Simple fl → Simple fl
  refresh_times env m =
      if ltb m.oldfetch m.numfetch
      then record m { usr = env.run_times.0; sys = env.run_times.1; oldfetch = m.numfetch }
      else m

  -- An element of rgb; the language says nothing of one out of range, and 0 stands for it.
  abbrev pub at_rgb : List ℕ → ℕ → ℕ
  at_rgb rgb i = or_else (get_elem? rgb i) 0

  -- simple.now: the field of the time slice that the cache has for the instance.
  unfoldable pub fetch_now :
      Pmapi → Surroundings fl → ℕ → MetricId → Result (FetchValueResult (Atom fl))
  unfolding static_result
  fetch_now api env domain id =
      elim (lookup_id api env.library domain id.instance_id require_active env.cache) [
        | ok r ↦ static_result api (atom fl api id.type (integer (env.tm_field r.opaque)))
        | err e ↦ err e
      ]

  unfoldable pub fetch_value :
      Pmapi → Surroundings fl → MetricId → Method (Simple fl) (FetchValueResult (Atom fl))
  unfolding refresh_times fetch_now static_result
  fetch_value api env id s =
      if id.cluster == 1
      then (let m = refresh_times env s.agent in
          (
            static_result api
                (atom fl api id.type (double (if id.item == 3 then m.usr else m.sys))),
            record s { agent = m },
          ))
      else if id.cluster == 2
      then (fetch_now api env (s.heap env.now_domain).pm_instance_domain id, s)
      else if id.item == 0
      then (static_result api (atom fl api id.type (integer (pos s.agent.numfetch))), s)
      else (let next = (at_rgb s.agent.rgb id.instance_id + 1) % 256 in
          (
            static_result api (atom fl api id.type (integer (pos next))),
            record s { agent = record s.agent { rgb = set s.agent.rgb id.instance_id next } },
          ))

  -- store_value of an int; the conversion to uint32_t wraps.
  unfoldable pub store_value : Pmapi → MetricId → ℤ → Method (Simple fl) (Unit {0})
  store_value api id value s =
      if id.item == 0
      then (ok tt, record s { agent = record s.agent { numfetch = to_unsigned (2 ^ 32) value } })
      else if is_neg value
      then (err (pcp (exception api api.err_sign [])), s)
      else if ltb_ℤ (pos 255) value
      then (err (pcp (exception api api.err_conv [])), s)
      else (
        ok tt,
        record s {
          agent = record s.agent {
            rgb = set s.agent.rgb id.instance_id (to_unsigned (2 ^ 8) value);
          };
        },
      )
