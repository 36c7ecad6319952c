-- ===== src/Tests/Init.antt =====
-- The tables of the small agent.
use pcp_pmda_cpp.Base.{ℕ, ◌%◌, ◌^◌, ◌≡◌, refl, ◌+◌, ◌∷◌, [], map, some, true, is_some}
use pcp_pmda_cpp.Map.{find, nat_ord}
use pcp_pmda_cpp.Pcp.{pcp4}
use pcp_pmda_cpp.Exception.{ok}
use pcp_pmda_cpp.Pmda.State.{Pmda}
use pcp_pmda_cpp.Pmda.Rows.{rows, metric_entry, position?}
use pcp_pmda_cpp.Pmda.Init.{Tables, allocate_pmda_indom, build_tables, initialize_pmda}
use pcp_pmda_cpp.Pmda.InitTables.{build_tables-total}
use pcp_pmda_cpp.Pmda.Registered.{recorded, initialize_pmda-registers}
use pcp_pmda_cpp.Tests.Fixtures.{heap, supported, agent, ready}

build_tables-total_example :
    (t : Tables) × (build_tables pcp4 heap supported ≡ some t)
    × (t.instance_domains ≡ 16 ∷ [])
    × (t.indom_table ≡ map (λ p. some (allocate_pmda_indom (heap p))) (16 ∷ []))
    × (t.metric_table ≡ map (λ r. some (metric_entry pcp4 (16 ∷ []) r)) (rows supported.clusters))
build_tables-total_example = build_tables-total pcp4 heap supported

initialize_pmda-registers_example :
    (t : Tables) × (s : Pmda ℕ) × (initialize_pmda pcp4 agent (λ t i. i + 1000) ready
      ≡ (ok (some t), s))
    × (build_tables pcp4 heap supported ≡ some t)
    × (s.supported_metrics ≡ supported)
    × ((p : ℕ) → s.heap p ≡ recorded (λ i. i + 1000) 0 (position? p (16 ∷ [])) (heap p))
    × ((p j : ℕ)
        → position? p (16 ∷ []) ≡ some j
        → (is_some (find ((heap p).domain_id % 2 ^ 32) s.instance_domains) ≡ true)
          × (is_some (find (j + 1000) s.instance_domains) ≡ true))
initialize_pmda-registers_example =
    initialize_pmda-registers pcp4 agent (λ t i. i + 1000) ready ready supported refl
