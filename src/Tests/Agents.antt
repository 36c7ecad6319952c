-- ===== src/Tests/Agents.antt =====
-- The example agent simple.
use pcp_pmda_cpp.Base.{◌≡◌, refl, arith, [], ◌∷◌}
use pcp_pmda_cpp.Base.Int.{pos}
use pcp_pmda_cpp.Pcp.{pcp4}
use pcp_pmda_cpp.Atom.Defs.{double, atom}
use pcp_pmda_cpp.Pmda.State.{Pmda, MetricId, static_result}
use pcp_pmda_cpp.Simple.Defs.{Simple, Surroundings, fetch_value}
use pcp_pmda_cpp.Simple.Times.{fetch_value-exchanged}
use pcp_pmda_cpp.Tests.Atoms.{whole_floats}
use pcp_pmda_cpp.Tests.Cache.{Entries, library}
use pcp_pmda_cpp.Tests.Fixtures.{fresh}

abbrev surroundings : Surroundings whole_floats
surroundings = record {
  Cache = Entries;
  library = library;
  cache = [];
  tm_field = λ p. pos p;
  now_domain = 32;
  run_times = (pos 5, pos 6);
}

-- The agent when it has begun to fetch once.
abbrev begun : Simple whole_floats
begun = record { numfetch = 1; rgb = 0 ∷ 100 ∷ 200 ∷ []; oldfetch = 0; usr = pos 0; sys = pos 0 }

abbrev simple_agent : Pmda (Simple whole_floats)
simple_agent = fresh begun

abbrev green : MetricId
green = record { cluster = 0; item = 1; instance_id = 1; type = 0; opaque = 0 }

abbrev times : MetricId
times = record { cluster = 1; item = 0; instance_id = 0xffff_ffff; type = 5; opaque = 0 }

fetch_value-exchanged_example :
    ((fetch_value whole_floats pcp4 surroundings (record times { item = 3 }) simple_agent).0
      ≡ static_result pcp4 (atom whole_floats pcp4 5 (double (pos 5))))
    × ((fetch_value whole_floats pcp4 surroundings (record times { item = 2 }) simple_agent).0
        ≡ static_result pcp4 (atom whole_floats pcp4 5 (double (pos 6))))
fetch_value-exchanged_example =
    fetch_value-exchanged whole_floats pcp4 surroundings times simple_agent refl (omega arith)
