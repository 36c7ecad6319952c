-- ===== src/Export/HelpDomains.antt =====
-- Which instance domains export_help_text writes entries for, and the order of all its entries.
use pcp_pmda_cpp.Base.{
  ℕ, ◌==◌, codes, decimal, List, append-nil, ◌≡◌, refl, ◌∙◌, ap, arith, Text, [], ◌∷◌, ◌++◌, Option,
  none, some, first_of, first_of_assoc, if◌then◌else◌,
}
use pcp_pmda_cpp.Map.{Map, find, nat_ord, text_ord}
use pcp_pmda_cpp.Map.Sorted.{IsSorted, insert-IsSorted}
use pcp_pmda_cpp.InstanceDomain.{InstanceInfo, InstanceDomain}
use pcp_pmda_cpp.Metrics.Defs.{MetricDescription, MetricCluster, MetricsDescription}
use pcp_pmda_cpp.Export.Files.{Identity, endl}
use pcp_pmda_cpp.Export.Help.{
  HelpMaps, full_name, add_domain, collect_cluster, collect, metric_entries, domain_entries,
  help_text, help_entry, instance_entries,
}
use pcp_pmda_cpp.Export.HelpNames.{
  first_named, first_of-none, find-insert_first, collect-first_named,
}

-- An entry: a line with what it is for and its one-line text, the other text on lines of its own,
-- where there is one, and a blank line.
abbrev pub entry_text : Text → Text → Text → Text
entry_text name short [] = codes "@ " ++ name ++ codes " " ++ short ++ codes "\n" ++ codes "\n"
entry_text name short (c ∷ verbose) =
    codes "@ "
    ++ name
    ++ codes " "
    ++ short
    ++ codes "\n"
    ++ (c ∷ verbose ++ codes "\n")
    ++ codes "\n"

help_entry-entry_text :
    (name short verbose : Text) → help_entry name short verbose ≡ entry_text name short verbose
unfolding help_entry
help_entry-entry_text name short [] = rw append-nil refl
help_entry-entry_text name short (c ∷ verbose) = refl

abbrev pub metric_entry : Text × MetricDescription → Text
metric_entry (name, d) = entry_text name d.short_description d.verbose_description

abbrev pub instance_entry : ℕ → ℕ × InstanceInfo → Text
instance_entry domain (i, info) =
    entry_text (decimal domain ++ codes "." ++ decimal i) info.short_description
      info.verbose_description

-- The texts of all elements, one after the other.
abbrev pub all_of {ℓ} : {A : Type ℓ} → (A → Text) → List A → Text
all_of f [] = []
all_of f (x ∷ xs) = f x ++ all_of f xs

abbrev pub entries_of_domain : (ℕ → InstanceDomain) → ℕ × ℕ → Text
entries_of_domain heap (domain, p) = all_of (instance_entry domain) (heap p).instances

-- The first pointer to a domain with an identifier, in the order of the clusters and their items.
pub pointer_of : (ℕ → InstanceDomain) → ℕ → Option ℕ → Option ℕ
pointer_of heap id none = none
pointer_of heap id (some p) = if (heap p).domain_id == id then some p else none

pub first_pointer_in_cluster : (ℕ → InstanceDomain) → Map ℕ MetricDescription → ℕ → Option ℕ
unfolding pointer_of
first_pointer_in_cluster heap [] id = none
first_pointer_in_cluster heap ((i, d) ∷ m) id =
    first_of (pointer_of heap id d.domain) (first_pointer_in_cluster heap m id)

pub first_pointer : (ℕ → InstanceDomain) → Map ℕ MetricCluster → ℕ → Option ℕ
unfolding first_pointer_in_cluster
first_pointer heap [] id = none
first_pointer heap ((c, k) ∷ m) id =
    first_of (first_pointer_in_cluster heap k.metrics id) (first_pointer heap m id)

module _ (heap : ℕ → InstanceDomain) where
  add_domain-find :
      (id : ℕ) (p : Option ℕ) (m : Map ℕ ℕ)
      → find id (add_domain heap p m) ≡ first_of (find id m) (pointer_of heap id p)
  unfolding pointer_of
  add_domain-find id none m = first_of-none (find id m)
  add_domain-find id (some p) m =
      find-insert_first (heap p).domain_id id ((heap p).domain_id == id) p m (λ e. ground arith)
        (λ e. ground arith)

  collect_cluster-pointer :
      (pmda cluster : Text) (m : Map ℕ MetricDescription) (maps : HelpMaps) (id : ℕ)
      → find id (collect_cluster heap pmda cluster m maps).domains
        ≡ first_of (find id maps.domains) (first_pointer_in_cluster heap m id)
  unfolding collect_cluster first_pointer_in_cluster
  collect_cluster-pointer pmda cluster [] maps id = first_of-none (find id maps.domains)
  collect_cluster-pointer pmda cluster ((i, d) ∷ m) maps id =
      collect_cluster-pointer pmda cluster m _ id
      ∙ ap (λ x. first_of x (first_pointer_in_cluster heap m id))
          (add_domain-find id d.domain maps.domains)
      ∙ first_of_assoc (find id maps.domains) _ (first_pointer_in_cluster heap m id)

  collect-pointer :
      (pmda : Text) (m : Map ℕ MetricCluster) (maps : HelpMaps) (id : ℕ)
      → find id (collect heap pmda m maps).domains
        ≡ first_of (find id maps.domains) (first_pointer heap m id)
  unfolding collect first_pointer
  collect-pointer pmda [] maps id = first_of-none (find id maps.domains)
  collect-pointer pmda ((c, k) ∷ m) maps id =
      collect-pointer pmda m _ id
      ∙ ap (λ x. first_of x (first_pointer heap m id))
          (collect_cluster-pointer pmda k.cluster_name k.metrics maps id)
      ∙ first_of_assoc (find id maps.domains) _ (first_pointer heap m id)

  -- Both maps ascend.
  AreSorted : HelpMaps → Type 0
  AreSorted maps = IsSorted maps.metrics × IsSorted maps.domains

  add_domain-IsSorted : (p : Option ℕ) (m : Map ℕ ℕ) → IsSorted m → IsSorted (add_domain heap p m)
  add_domain-IsSorted none m s = s
  add_domain-IsSorted (some p) m s = insert-IsSorted (heap p).domain_id p m s

  collect_cluster-AreSorted :
      (pmda cluster : Text) (m : Map ℕ MetricDescription) (maps : HelpMaps)
      → AreSorted maps
      → AreSorted (collect_cluster heap pmda cluster m maps)
  unfolding collect_cluster AreSorted
  collect_cluster-AreSorted pmda cluster [] maps s = s
  collect_cluster-AreSorted pmda cluster ((i, d) ∷ m) maps s =
      collect_cluster-AreSorted pmda cluster m _ (
        insert-IsSorted (full_name pmda cluster d.metric_name) d maps.metrics s.0,
        add_domain-IsSorted d.domain maps.domains s.1,
      )

  collect-AreSorted :
      (pmda : Text) (m : Map ℕ MetricCluster) (maps : HelpMaps)
      → AreSorted maps
      → AreSorted (collect heap pmda m maps)
  unfolding collect
  collect-AreSorted pmda [] maps s = s
  collect-AreSorted pmda ((c, k) ∷ m) maps s =
      collect-AreSorted pmda m _ (collect_cluster-AreSorted pmda k.cluster_name k.metrics maps s)

  metric_entries-all_of :
      (m : Map Text MetricDescription) → metric_entries m ≡ all_of metric_entry m
  unfolding metric_entries help_entry
  metric_entries-all_of [] = refl
  metric_entries-all_of ((name, d) ∷ m) =
      ap (λ t. t ++ metric_entries m)
        (help_entry-entry_text name d.short_description d.verbose_description)
      ∙ ap (λ t. metric_entry (name, d) ++ t) (metric_entries-all_of m)

  instance_entries-all_of :
      (domain : ℕ) (m : Map ℕ InstanceInfo)
      → instance_entries domain m ≡ all_of (instance_entry domain) m
  unfolding instance_entries help_entry
  instance_entries-all_of domain [] = refl
  instance_entries-all_of domain ((i, info) ∷ m) =
      ap (λ t. t ++ instance_entries domain m)
        (help_entry-entry_text (decimal domain ++ codes "." ++ decimal i) info.short_description
          info.verbose_description)
      ∙ ap (λ t. instance_entry domain (i, info) ++ t) (instance_entries-all_of domain m)

  domain_entries-all_of : (m : Map ℕ ℕ) → domain_entries heap m ≡ all_of (entries_of_domain heap) m
  unfolding domain_entries
  domain_entries-all_of [] = refl
  domain_entries-all_of ((domain, p) ∷ m) =
      rw (instance_entries-all_of domain (heap p).instances, domain_entries-all_of m) refl

  -- The help text is a blank line, the entries of the metrics, and those of the instances of the
  -- domains. The metrics come in strictly ascending order of their full names, so that no name has
  -- two entries: a name has an entry exactly when some metric has it, and the entry is that of the
  -- first such metric in the order of the clusters and items. The domains come in strictly ascending
  -- order of their identifiers, likewise.
  pub help_text-ascending :
      (id : Identity) (m : MetricsDescription)
      → (metrics : Map Text MetricDescription) × (domains : Map ℕ ℕ) × (help_text heap id m
          ≡ endl ++ all_of metric_entry metrics ++ all_of (entries_of_domain heap) domains)
        × IsSorted metrics
        × IsSorted domains
        × ((name : Text) → find name metrics ≡ first_named id.pmda_name m.clusters name)
        × ((k : ℕ) → find k domains ≡ first_pointer heap m.clusters k)
  unfolding help_text AreSorted find
  help_text-ascending id m =
      let empty : HelpMaps = record { metrics = []; domains = [] } in
      let maps = collect heap id.pmda_name m.clusters empty in
      let sorted = collect-AreSorted id.pmda_name m.clusters empty (tt, tt) in
      (
        maps.metrics,
        maps.domains,
        rw (metric_entries-all_of maps.metrics, domain_entries-all_of maps.domains) refl,
        sorted.0,
        sorted.1,
        collect-first_named heap id.pmda_name m.clusters,
        collect-pointer id.pmda_name m.clusters empty,
      )
