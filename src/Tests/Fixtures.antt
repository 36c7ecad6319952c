-- ===== src/Tests/Fixtures.antt =====
-- A small agent: one cluster with a storable metric over the domain of three colours (the object at
-- address 16), and one without a domain.
use pcp_pmda_cpp.Base.{false, ℕ, ◌+◌, codes, [], ◌∷◌, none, some, ◌==◌, if◌then◌else◌}
use pcp_pmda_cpp.Base.Int.{pos, negsuc}
use pcp_pmda_cpp.Exception.{ok, err, pcp}
use pcp_pmda_cpp.InstanceDomain.{InstanceInfo, InstanceDomain}
use pcp_pmda_cpp.Metrics.Defs.{MetricDescription, MetricCluster, MetricsDescription}
use pcp_pmda_cpp.Pmda.State.{Config, Pmda, Agent}

abbrev pub config : Config
config = record { interface_version = 7; no_id_validity_checks = false }

abbrev pub red : InstanceInfo
red = record {
  instance_name = codes "red";
  short_description = codes "Red";
  verbose_description = [];
}

abbrev pub blue : InstanceInfo
blue = record { instance_name = codes "blue"; short_description = []; verbose_description = [] }

abbrev pub colours : InstanceDomain
colours = record {
  instances = (0, red) ∷ (2, blue) ∷ [];
  domain_id = 3;
  pm_instance_domain = 0xffff_ffff;
}

abbrev pub empty_domain : InstanceDomain
empty_domain = record { instances = []; domain_id = 5; pm_instance_domain = 0xffff_ffff }

abbrev pub heap : ℕ → InstanceDomain
heap p = if p == 16 then colours else empty_domain

abbrev pub colour : MetricDescription
colour = record {
  metric_name = codes "colour";
  type = 0;
  semantic = 3;
  units = 0;
  domain = some 16;
  short_description = codes "A colour";
  verbose_description = [];
  opaque = 77;
  flags = 1;
}

abbrev pub now : MetricDescription
now = record {
  metric_name = codes "now";
  type = 1;
  semantic = 1;
  units = 0;
  domain = none;
  short_description = codes "The time";
  verbose_description = codes "The time now";
  opaque = 0;
  flags = 0;
}

abbrev pub paint : MetricCluster
paint = record {
  metrics = (1, colour) ∷ (4, now) ∷ [];
  cluster_id = 2;
  cluster_name = codes "paint";
}

abbrev pub supported : MetricsDescription
supported = record { clusters = (2, paint) ∷ []; most_recent_cluster = some 2 }

-- The agent's state counts its calls, and its atoms are numbers.
abbrev pub agent : Agent ℕ ℕ
agent = record {
  get_supported_metrics = λ s. (ok supported, s);
  begin_fetch_values = λ s. (ok tt, record s { agent = s.agent + 1 });
  fetch_value = λ id s.
      (ok (record { atom = id.instance_id + 100; code = pos 1 }), record s { agent = s.agent + 1 });
  store_int = λ id v s. (ok tt, record s { agent = s.agent + 10 });
  store_block = λ id v s.
      (err (pcp (record { pm_error_code = negsuc 12362; message = codes "no blocks" })), s);
}

abbrev pub ready : Pmda ℕ
ready = record {
  supported_metrics = supported;
  instance_domains = (3, 16) ∷ [];
  free_on_destruction = [];
  heap = heap;
  log = [];
  output = [];
  previous_cluster_name = [];
  agent = 0;
}

-- The members as the constructor of pmda leaves them.
abbrev pub fresh {ℓ} : {S : Type ℓ} → S → Pmda S
fresh a = record {
  supported_metrics = record { clusters = []; most_recent_cluster = none };
  instance_domains = [];
  free_on_destruction = [];
  heap = heap;
  log = [];
  output = [];
  previous_cluster_name = [];
  agent = a;
}
