-- ===== src/Tests/Metrics.antt =====
-- Chains of calls that build descriptions and instance domains.
use pcp_pmda_cpp.Base.{ℕ, ◌≡◌, codes, [], ◌∷◌, List, none, some}
use pcp_pmda_cpp.Map.{find, nat_ord}
use pcp_pmda_cpp.Pcp.{pcp4}
use pcp_pmda_cpp.Exception.{ok}
use pcp_pmda_cpp.InstanceDomain
use pcp_pmda_cpp.InstanceDomain.{InstanceInfo, instance_domain, call_domain, call_info, call_name}
use pcp_pmda_cpp.InstanceDomain.Instances.{find-chain}
use pcp_pmda_cpp.Metrics.Defs.{MetricsDescription, metrics_description}
use pcp_pmda_cpp.Metrics.Chain.{
  Call, cluster, metric, flags_domain, domain_texts, domain_flags, chain,
}
use pcp_pmda_cpp.Metrics.Lookup.{lookup}
use pcp_pmda_cpp.Metrics.Build.{chain-builds}
use pcp_pmda_cpp.Metrics.Calls.{IsWellFormed, name_of, first_metric, first_name}
use pcp_pmda_cpp.Tests.Fixtures.{colour, now, red, blue}

-- Cluster 0 is named twice: its second name is dropped, and both its metrics stay.
abbrev calls : List Call
calls =
    cluster 0 (codes "a")
    ∷ metric flags_domain 1 colour
    ∷ cluster 1 []
    ∷ metric domain_texts 1 now
    ∷ cluster 0 (codes "b")
    ∷ metric domain_flags 2 now
    ∷ metric domain_flags 1 now
    ∷ []

chain-builds_example :
    (m : MetricsDescription) × (chain pcp4 calls metrics_description ≡ ok m)
    × IsWellFormed m
    × ((c i : ℕ) → lookup c i m ≡ first_metric none calls c i)
    × ((c : ℕ) → name_of c m ≡ first_name calls c)
chain-builds_example = chain-builds pcp4 calls tt

find-chain_example :
    find 0
      (InstanceDomain.chain pcp4
        (InstanceDomain.info 0 red ∷ InstanceDomain.domain 4 ∷ InstanceDomain.info 0 blue ∷ [])
        (instance_domain pcp4 0)).instances
    ≡ some red
find-chain_example =
    find-chain pcp4
      (InstanceDomain.info 0 red ∷ InstanceDomain.domain 4 ∷ InstanceDomain.info 0 blue ∷ []) 0 0
