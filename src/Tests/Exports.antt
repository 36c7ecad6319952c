-- ===== src/Tests/Exports.antt =====
-- The support files of a small agent.
use pcp_pmda_cpp.Base.{ℕ, ◌≡◌, refl, codes, [], ◌∷◌, ◌++◌, some, to_upper, decimal}
use pcp_pmda_cpp.Base.Int.{pos, decimal_ℤ}
use pcp_pmda_cpp.Map.{Map, find, text_ord, nat_ord}
use pcp_pmda_cpp.Metrics.Defs.{MetricCluster}
use pcp_pmda_cpp.Base.{Bool, not, text_eq}
use pcp_pmda_cpp.Pcp.{pcp4}
use pcp_pmda_cpp.Exception.{err, pcp, exception}
use pcp_pmda_cpp.Pmda.State.{Pmda}
use pcp_pmda_cpp.Export.Support.{export_support_files-written}
use pcp_pmda_cpp.Export.Help.{export_support_files}
use pcp_pmda_cpp.Export.Files.{domain_header, Identity, endl, upper_name}
use pcp_pmda_cpp.Export.Pmns.{
  longest_name, longest_in_cluster, metric_line, metric_lines, group_blocks, group_names, pmns_data,
  pmns_prologue,
}
use pcp_pmda_cpp.Export.HelpNames.{first_named}
use pcp_pmda_cpp.Export.Groups.{group_blocks-runs, group_names-repeated, blocks, runs}
use pcp_pmda_cpp.Export.HelpDomains.{
  first_pointer, help_text-ascending, all_of, metric_entry, entries_of_domain,
}
use pcp_pmda_cpp.Map.Sorted.{IsSorted}
use pcp_pmda_cpp.Metrics.Defs.{MetricDescription}
use pcp_pmda_cpp.Export.Help.{help_text}
use pcp_pmda_cpp.Base.{Text}
use pcp_pmda_cpp.Tests.Fixtures.{fresh, paint, supported, now, heap}

abbrev identity : Identity
identity = record { pmda_name = codes "shop"; default_domain_number = pos 412 }

pmns_text : pmns_data identity supported [] ≡ (
  codes "\n#ifndef SHOP\n#define SHOP 412\n#endif\n\nshop {\n    paint\n}\n\nshop.paint {\n"
      ++ codes "    colour    SHOP:2:1\n    now       SHOP:2:4\n}\n\n",
  codes "paint",
)
unfolding pmns_data decimal decimal_ℤ to_upper upper_name longest_name longest_in_cluster
    metric_line metric_lines group_blocks group_names pmns_prologue
pmns_text = refl

found_paint : find 2 supported.clusters ≡ some paint
unfolding find
found_paint = refl

found_now : find 4 paint.metrics ≡ some now
unfolding find
found_now = refl

abbrev two_clusters : Map ℕ MetricCluster
two_clusters = (2, paint) ∷ (3, paint) ∷ []

group_blocks-runs_example :
    group_blocks (codes "shop") (codes "SHOP") 6 two_clusters []
    ≡ blocks (codes "shop") (runs (codes "SHOP") 6 two_clusters)
group_blocks-runs_example = group_blocks-runs (codes "shop") (codes "SHOP") 6 two_clusters

group_names-repeated_example :
    (group_names (codes "SHOP") 6 two_clusters []
      ≡ (codes "    " ++ codes "paint" ++ endl, codes "paint"))
    × (group_names (codes "SHOP") 6 two_clusters (codes "paint") ≡ ([], codes "paint"))
group_names-repeated_example =
    group_names-repeated (codes "SHOP") 6 (codes "paint") [] 2 paint ((3, paint) ∷ []) refl refl
      refl (refl, tt)

help_text-ascending_example :
    (metrics : Map Text MetricDescription) × (domains : Map ℕ ℕ) × (help_text heap identity
        supported
      ≡ endl ++ all_of metric_entry metrics ++ all_of (entries_of_domain heap) domains)
    × IsSorted metrics
    × IsSorted domains
    × ((name : Text) → find name metrics ≡ first_named identity.pmda_name supported.clusters name)
    × ((k : ℕ) → find k domains ≡ first_pointer heap supported.clusters k)
help_text-ascending_example = help_text-ascending heap identity supported

-- The names cannot be opened.
abbrev all_but_names : Text → Bool
all_but_names name = not (text_eq name (codes "etc/pmns"))

abbrev shop : Pmda (Unit {0})
shop = record (fresh tt) { supported_metrics = supported }

export_support_files-written_example :
    ((export_support_files pcp4 all_but_names identity (codes "etc") shop).0
      ≡ err (
          pcp
            (exception pcp4 pcp4.err_generic (codes "failed to open file for writing: etc/pmns"))))
    × ((export_support_files pcp4 all_but_names identity (codes "etc") shop).1.output
        ≡ (codes "etc/help", help_text shop.heap identity supported)
          ∷ (codes "etc/domain.h", domain_header identity)
          ∷ [])
export_support_files-written_example =
    export_support_files-written pcp4 all_but_names identity (codes "etc") shop
