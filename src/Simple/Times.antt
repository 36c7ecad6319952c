-- ===== src/Simple/Times.antt =====
-- The processor times of example/simple/simple.cpp.
use pcp_pmda_cpp.Base.{◌<◌, ◌≡◌, refl, arith, true, ltb}
use pcp_pmda_cpp.Pcp.{Pmapi}
use pcp_pmda_cpp.Atom.Defs.{Floats, double, atom}
use pcp_pmda_cpp.Pmda.State.{Pmda, MetricId, static_result}
use pcp_pmda_cpp.Simple.Defs.{Simple, Surroundings, fetch_value, refresh_times}

-- On the first fetch of the times after begin_fetch_values, item 3, which is named sys, gives the
-- first time of __pmProcessRunTimes, the user's, and item 2, which is named user, the second, the
-- system's.
pub fetch_value-exchanged :
    (fl : Floats) (api : Pmapi) (env : Surroundings fl) (id : MetricId) (s : Pmda (Simple fl))
    → id.cluster ≡ 1
    → s.agent.oldfetch < s.agent.numfetch
    → ((fetch_value fl api env (record id { item = 3 }) s).0
        ≡ static_result api (atom fl api id.type (double env.run_times.0)))
      × ((fetch_value fl api env (record id { item = 2 }) s).0
          ≡ static_result api (atom fl api id.type (double env.run_times.1)))
unfolding fetch_value refresh_times
fetch_value-exchanged fl api env id s hc h = (rw (hc, newer) refl, rw (hc, newer) refl)
  where
    newer : ltb s.agent.oldfetch s.agent.numfetch ≡ true
    newer = ground (arith, h)
