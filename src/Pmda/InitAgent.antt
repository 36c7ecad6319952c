-- ===== src/Pmda/InitAgent.antt =====
-- initialize_pmda and the agent's own members (include/pcp-cpp/pmda.hpp).
use pcp_pmda_cpp.Base.{ℕ, ◌+◌, ◌≡◌, refl, ap, ◌∙◌, List, [], ◌∷◌}
use pcp_pmda_cpp.Exception.{ok}
use pcp_pmda_cpp.Pcp.{Pmapi}
use pcp_pmda_cpp.Metrics.Defs.{MetricsDescription}
use pcp_pmda_cpp.Pmda.State.{Pmda, Agent}
use pcp_pmda_cpp.Pmda.Init.{Tables, record_indom, record_indoms, initialize_pmda}
use pcp_pmda_cpp.Pmda.InitTables.{build_tables-total}
use pcp_pmda_cpp.Pmda.Registered.{initialize_pmda-ok}

record_indoms-agent {ℓ} :
    {S : Type ℓ} (it_indom : ℕ → ℕ) (index : ℕ) (ds : List ℕ) (s : Pmda S)
    → (record_indoms it_indom index ds s).agent ≡ s.agent
unfolding record_indoms record_indom
record_indoms-agent it_indom index [] s = refl
record_indoms-agent it_indom index (d ∷ ds) s =
    record_indoms-agent it_indom (index + 1) ds (record_indom d (it_indom index) s)

-- The members that get_supported_metrics leaves to the agent stay as they are.
pub initialize_pmda-agent {ℓ κ} :
    {S : Type ℓ} {A : Type κ} (api : Pmapi) (agent : Agent S A) (pmda_init : Tables → ℕ → ℕ)
    (s s' : Pmda S) (m : MetricsDescription)
    → agent.get_supported_metrics s ≡ (ok m, s')
    → (initialize_pmda api agent pmda_init s).1.agent ≡ s'.agent
initialize_pmda-agent api agent pmda_init s s' m e =
    let (t, built, _, _, _) = build_tables-total api s'.heap m in
    ap (λ x. x.1.agent) (initialize_pmda-ok api agent pmda_init s s' m t e built)
    ∙ record_indoms-agent (pmda_init t) 0 t.instance_domains (record s' { supported_metrics = m })
