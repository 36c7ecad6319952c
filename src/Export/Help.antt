-- ===== src/Export/Help.antt =====
-- export_help_text and export_support_files.
use pcp_pmda_cpp.Base.{
  ℕ, Bool, Text, codes, [], ◌∷◌, ◌++◌, is_empty, Option, none, some, decimal, if◌then◌else◌,
}
use pcp_pmda_cpp.Pcp.{Pmapi}
use pcp_pmda_cpp.Map.{Map, insert, nat_ord, text_ord}
use pcp_pmda_cpp.InstanceDomain.{InstanceInfo, InstanceDomain}
use pcp_pmda_cpp.Metrics.Defs.{MetricDescription, MetricCluster, MetricsDescription}
use pcp_pmda_cpp.Pmda.State.{Method, ◌>>◌}
use pcp_pmda_cpp.Export.Files.{Identity, endl, write_file, export_domain_header, export_pmns_root}
use pcp_pmda_cpp.Export.Pmns.{export_pmns_data}

-- PMDA.cluster.metric, or PMDA.metric in a cluster without a name.
unfoldable pub full_name : Text → Text → Text → Text
full_name pmda cluster metric =
    pmda ++ (if is_empty cluster then [] else codes "." ++ cluster) ++ (codes "." ++ metric)

-- The metrics by full name, and the instance domains by the agent's identifier.
pub record HelpMaps : Type 0 where
  pub metrics : Map Text MetricDescription
  pub domains : Map ℕ ℕ

abbrev pub add_domain : (ℕ → InstanceDomain) → Option ℕ → Map ℕ ℕ → Map ℕ ℕ
add_domain heap none m = m
add_domain heap (some p) m = insert (heap p).domain_id p m

unfoldable pub collect_cluster :
    (ℕ → InstanceDomain) → Text → Text → Map ℕ MetricDescription → HelpMaps → HelpMaps
unfolding full_name
collect_cluster heap pmda cluster [] maps = maps
collect_cluster heap pmda cluster ((i, d) ∷ m) maps = collect_cluster heap pmda cluster m (record {
  metrics = insert (full_name pmda cluster d.metric_name) d maps.metrics;
  domains = add_domain heap d.domain maps.domains;
})

unfoldable pub collect : (ℕ → InstanceDomain) → Text → Map ℕ MetricCluster → HelpMaps → HelpMaps
unfolding collect_cluster
collect heap pmda [] maps = maps
collect heap pmda ((c, k) ∷ m) maps =
    collect heap pmda m (collect_cluster heap pmda k.cluster_name k.metrics maps)

unfoldable pub help_entry : Text → Text → Text → Text
help_entry name short verbose =
    codes "@ "
    ++ name
    ++ codes " "
    ++ short
    ++ endl
    ++ (if is_empty verbose then [] else verbose ++ endl)
    ++ endl

unfoldable pub metric_entries : Map Text MetricDescription → Text
unfolding help_entry
metric_entries [] = []
metric_entries ((name, d) ∷ m) =
    help_entry name d.short_description d.verbose_description ++ metric_entries m

unfoldable pub instance_entries : ℕ → Map ℕ InstanceInfo → Text
unfolding help_entry
instance_entries domain [] = []
instance_entries domain ((i, info) ∷ m) =
    help_entry (decimal domain ++ codes "." ++ decimal i) info.short_description
      info.verbose_description
    ++ instance_entries domain m

unfoldable pub domain_entries : (ℕ → InstanceDomain) → Map ℕ ℕ → Text
unfolding instance_entries
domain_entries heap [] = []
domain_entries heap ((domain, p) ∷ m) =
    instance_entries domain (heap p).instances ++ domain_entries heap m

unfoldable pub help_text : (ℕ → InstanceDomain) → Identity → MetricsDescription → Text
unfolding collect metric_entries domain_entries
help_text heap id m =
    let maps = collect heap id.pmda_name m.clusters (record { metrics = []; domains = [] }) in
    endl ++ metric_entries maps.metrics ++ domain_entries heap maps.domains

unfoldable pub export_help_text {ℓ} :
    {S : Type ℓ} → Pmapi → (Text → Bool) → Identity → Text → Method S (Unit {0})
unfolding help_text write_file
export_help_text api can_open id filename s =
    write_file api can_open filename (help_text s.heap id s.supported_metrics) s

unfoldable pub export_support_files {ℓ} :
    {S : Type ℓ} → Pmapi → (Text → Bool) → Identity → Text → Method S (Unit {0})
unfolding export_domain_header export_help_text export_pmns_data export_pmns_root
export_support_files api can_open id directory =
    export_domain_header api can_open id (directory ++ sep ++ codes "domain.h")
    >> export_help_text api can_open id (directory ++ sep ++ codes "help")
    >> export_pmns_data api can_open id (directory ++ sep ++ codes "pmns")
    >> export_pmns_root api can_open id (directory ++ sep ++ codes "root")
  where
    sep : Text
    sep = api.path_separator ∷ []
