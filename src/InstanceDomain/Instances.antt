-- ===== src/InstanceDomain/Instances.antt =====
-- What a chain of calls registers in an instance domain (include/pcp-cpp/instance_domain.hpp).
use pcp_pmda_cpp.Base.{
  ℕ, ◌≡◌, refl, ◌∙◌, List, [], ◌∷◌, Option, none, some, arith, ◌==◌, if◌then◌else◌,
}
use pcp_pmda_cpp.Map.{find, nat_ord}
use pcp_pmda_cpp.Map.Lookup.{find-insert}
use pcp_pmda_cpp.Map.Sorted.{IsSorted, insert-IsSorted}
use pcp_pmda_cpp.Pcp.{Pmapi}
use pcp_pmda_cpp.InstanceDomain.{
  InstanceInfo, InstanceDomain, Call, domain, info, named, call, chain, instance_domain,
}

-- The instance that a call registers.
abbrev pub registers : Call → ℕ → Option InstanceInfo
registers (domain _) k = none
registers (info id i) k = if id == k then some i else none
registers (named id name short verbose) k =
    if id == k
    then some
        (record { instance_name = name; short_description = short; verbose_description = verbose })
    else none

abbrev pub first_of_two : Option InstanceInfo → Option InstanceInfo → Option InstanceInfo
first_of_two none o = o
first_of_two (some i) _ = some i

-- The first registration of `k` along a chain.
abbrev pub first_registered : List Call → ℕ → Option InstanceInfo
first_registered [] k = none
first_registered (c ∷ cs) k = first_of_two (registers c k) (first_registered cs k)

-- The last domain identifier along a chain.
abbrev pub last_domain : List Call → ℕ → ℕ
last_domain [] id = id
last_domain (domain id' ∷ cs) id = last_domain cs id'
last_domain (_ ∷ cs) id = last_domain cs id

call-find :
    (api : Pmapi) (c : Call) (d : InstanceDomain) (k : ℕ)
    → find k (call api c d).instances ≡ first_of_two (find k d.instances) (registers c k)
unfolding call
call-find api (domain id) d k = ground arith
call-find api (info id i) d k = ground (arith, find-insert id k i d.instances)
call-find api (named id name short verbose) d k = ground (
  arith,
  find-insert id k
      (record { instance_name = name; short_description = short; verbose_description = verbose })
      d.instances,
)

first_of_two_assoc :
    (a b c : Option InstanceInfo)
    → first_of_two (first_of_two a b) c ≡ first_of_two a (first_of_two b c)
first_of_two_assoc none b c = refl
first_of_two_assoc (some a) b c = refl

chain-find_from :
    (api : Pmapi) (cs : List Call) (d : InstanceDomain) (k : ℕ)
    → find k (chain api cs d).instances ≡ first_of_two (find k d.instances) (first_registered cs k)
unfolding chain
chain-find_from api [] d k = ground arith
chain-find_from api (c ∷ cs) d k =
    chain-find_from api cs (call api c d) k
    ∙ rw (call-find api c d k) (first_of_two_assoc (find k d.instances) (registers c k) _)

-- After any chain of calls on a new domain, an identifier names the instance that the chain
-- registered first under it, whichever form of the call did so, and no other identifier names one.
pub find-chain :
    (api : Pmapi) (cs : List Call) (id k : ℕ)
    → find k (chain api cs (instance_domain api id)).instances ≡ first_registered cs k
unfolding instance_domain find
find-chain api cs id k = chain-find_from api cs (instance_domain api id) k

call-IsSorted :
    (api : Pmapi) (c : Call) (d : InstanceDomain)
    → IsSorted d.instances
    → IsSorted (call api c d).instances
unfolding call
call-IsSorted api (domain id) d s = s
call-IsSorted api (info id i) d s = insert-IsSorted id i d.instances s
call-IsSorted api (named id name short verbose) d s = insert-IsSorted id _ d.instances s

pub chain-IsSorted :
    (api : Pmapi) (cs : List Call) (d : InstanceDomain)
    → IsSorted d.instances
    → IsSorted (chain api cs d).instances
unfolding chain
chain-IsSorted api [] d s = s
chain-IsSorted api (c ∷ cs) d s = chain-IsSorted api cs _ (call-IsSorted api c d s)

-- The identifier of the domain is the last that a call gave.
pub domain_id-chain :
    (api : Pmapi) (cs : List Call) (d : InstanceDomain)
    → (chain api cs d).domain_id ≡ last_domain cs d.domain_id
unfolding chain call
domain_id-chain api [] d = refl
domain_id-chain api (domain id ∷ cs) d = domain_id-chain api cs _
domain_id-chain api (info id i ∷ cs) d = domain_id-chain api cs _
domain_id-chain api (named id n s v ∷ cs) d = domain_id-chain api cs _
