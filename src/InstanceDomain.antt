-- ===== src/InstanceDomain.antt =====
-- include/pcp-cpp/instance_domain.hpp: a map of instances with two identifiers of the domain.
pub mod Instances
use pcp_pmda_cpp.Base.{ℕ, Text, List, [], ◌∷◌}
use pcp_pmda_cpp.Map.{Map, insert, nat_ord}
use pcp_pmda_cpp.Pcp.{Pmapi}

pub record InstanceInfo : Type 0 where
  pub instance_name : Text
  pub short_description : Text
  pub verbose_description : Text

pub record InstanceDomain : Type 0 where
  pub instances : Map ℕ InstanceInfo
  -- The identifier that the agent gave, and the one that pmdaInit made of it.
  pub domain_id : ℕ
  pub pm_instance_domain : ℕ

-- The constructor; its argument defaults to PM_INDOM_NULL.
unfoldable pub instance_domain : Pmapi → ℕ → InstanceDomain
instance_domain api id = record {
  instances = [];
  domain_id = id;
  pm_instance_domain = api.indom_null;
}

unfoldable pub set_domain_id : ℕ → InstanceDomain → InstanceDomain
set_domain_id id d = record d { domain_id = id }

unfoldable pub set_pm_instance_domain : ℕ → InstanceDomain → InstanceDomain
set_pm_instance_domain domain d = record d { pm_instance_domain = domain }

-- `domain(domain_id)`
unfoldable pub call_domain : Pmapi → ℕ → InstanceDomain → InstanceDomain
unfolding set_domain_id set_pm_instance_domain
call_domain api id d = set_pm_instance_domain api.indom_null (set_domain_id id d)

-- `domain(instance_id, info)`
unfoldable pub call_info : ℕ → InstanceInfo → InstanceDomain → InstanceDomain
call_info id info d = record d { instances = insert id info d.instances }

-- `domain(instance_id, instance_name, short_description, verbose_description)`
unfoldable pub call_name : ℕ → Text → Text → Text → InstanceDomain → InstanceDomain
call_name id name short verbose d = record d { instances = insert id info d.instances }
  where
    info : InstanceInfo
    info = record { instance_name = name; short_description = short; verbose_description = verbose }

-- One call of a chain such as `color_domain(0)(0, "red")(1, "green")`.
pub data Call : Type 0 where
  domain : ℕ → Call
  info : ℕ → InstanceInfo → Call
  named : ℕ → Text → Text → Text → Call

unfoldable pub call : Pmapi → Call → InstanceDomain → InstanceDomain
unfolding call_domain call_info call_name
call api (domain id) d = call_domain api id d
call api (info id i) d = call_info id i d
call api (named id name short verbose) d = call_name id name short verbose d

unfoldable pub chain : Pmapi → List Call → InstanceDomain → InstanceDomain
unfolding call
chain api [] d = d
chain api (c ∷ cs) d = chain api cs (call api c d)
