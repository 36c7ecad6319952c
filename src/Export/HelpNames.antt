-- ===== src/Export/HelpNames.antt =====
-- Which metrics export_help_text writes an entry for.
use pcp_pmda_cpp.Base.{
  ℕ, ◌≡◌, ◌≢◌, refl, sym, true, false, Bool, ◌∙◌, ap, arith, Bool-cases, inl, inr, Text, text_eq,
  text_eq_refl, eq_of_text_eq, [], ◌∷◌, Option, none, some, or_else, first_of, first_of_assoc,
  if◌then◌else◌,
}
use pcp_pmda_cpp.Map.{Map, Ord, find, insert, text_ord}
use pcp_pmda_cpp.Map.Lookup.{find-insert_self, find-insert_ne}
use pcp_pmda_cpp.InstanceDomain.{InstanceDomain}
use pcp_pmda_cpp.Metrics.Defs.{MetricDescription, MetricCluster}
use pcp_pmda_cpp.Export.Help.{HelpMaps, full_name, collect_cluster, collect}

-- The first metric that has the full name, in the order of the clusters and their items.
pub first_in_cluster : Text → Text → Map ℕ MetricDescription → Text → Option MetricDescription
first_in_cluster pmda cluster [] name = none
first_in_cluster pmda cluster ((i, d) ∷ m) name =
    if text_eq (full_name pmda cluster d.metric_name) name
    then some d
    else first_in_cluster pmda cluster m name

pub first_named : Text → Map ℕ MetricCluster → Text → Option MetricDescription
unfolding first_in_cluster
first_named pmda [] name = none
first_named pmda ((c, k) ∷ m) name =
    first_of (first_in_cluster pmda k.cluster_name k.metrics name) (first_named pmda m name)

pub first_of-none {ℓ} : {A : Type ℓ} (a : Option A) → a ≡ first_of a none
first_of-none none = refl
first_of-none (some a) = refl

or_else-first_of {ℓ} :
    {A : Type ℓ} (a : Option A) (d : A) → some (or_else a d) ≡ first_of a (some d)
or_else-first_of none d = refl
or_else-first_of (some a) d = refl

-- `insert` under a key whose equality with another is decided by `b`.
pub find-insert_first {ℓ κ} :
    {K : Type ℓ} {V : Type κ} ⦃o : Ord K⦄ (k j : K) (b : Bool) (v : V) (m : Map K V)
    → (b ≡ true → k ≡ j)
    → (b ≡ false → k ≢ j)
    → find j (insert k v m) ≡ first_of (find j m) (if b then some v else none)
find-insert_first k j true v m same other =
    rw (same refl) (find-insert_self j v m ∙ or_else-first_of (find j m) v)
find-insert_first k j false v m same other =
    find-insert_ne k j v m (other refl) ∙ first_of-none (find j m)

text_eq-ne : (s t : Text) → text_eq s t ≡ false → s ≢ t
text_eq-ne s t e h = ground (arith, sym (text_eq_refl s) ∙ ap (text_eq s) h ∙ e)

collect_cluster-find :
    (heap : ℕ → InstanceDomain) (pmda cluster : Text) (m : Map ℕ MetricDescription)
    (maps : HelpMaps) (name : Text)
    → find name (collect_cluster heap pmda cluster m maps).metrics
      ≡ first_of (find name maps.metrics) (first_in_cluster pmda cluster m name)
unfolding collect_cluster first_in_cluster
collect_cluster-find heap pmda cluster [] maps name = first_of-none (find name maps.metrics)
collect_cluster-find heap pmda cluster ((i, d) ∷ m) maps name =
    collect_cluster-find heap pmda cluster m _ name
    ∙ ap (λ x. first_of x (first_in_cluster pmda cluster m name))
        (find-insert_first (full_name pmda cluster d.metric_name) name
          (text_eq (full_name pmda cluster d.metric_name) name) d maps.metrics
          (eq_of_text_eq _ name) (text_eq-ne _ name))
    ∙ first_of_assoc (find name maps.metrics) _ (first_in_cluster pmda cluster m name)
    ∙ ap (first_of (find name maps.metrics)) first_of_if
  where
    first_of_if :
        first_of
          (if text_eq (full_name pmda cluster d.metric_name) name then some d else none)
          (first_in_cluster pmda cluster m name)
        ≡ (if text_eq (full_name pmda cluster d.metric_name) name
            then some d
            else first_in_cluster pmda cluster m name)
    first_of_if = elim (Bool-cases (text_eq (full_name pmda cluster d.metric_name) name)) [
      | inl e ↦ rw e refl
      | inr e ↦ rw e refl
    ]

collect-find :
    (heap : ℕ → InstanceDomain) (pmda : Text) (m : Map ℕ MetricCluster) (maps : HelpMaps)
    (name : Text)
    → find name (collect heap pmda m maps).metrics
      ≡ first_of (find name maps.metrics) (first_named pmda m name)
unfolding collect first_named
collect-find heap pmda [] maps name = first_of-none (find name maps.metrics)
collect-find heap pmda ((c, k) ∷ m) maps name =
    collect-find heap pmda m _ name
    ∙ ap (λ x. first_of x (first_named pmda m name))
        (collect_cluster-find heap pmda k.cluster_name k.metrics maps name)
    ∙ first_of_assoc (find name maps.metrics) _ (first_named pmda m name)

-- The help text has an entry under a name exactly when some metric has it as its full name, and
-- the entry is that of the first such metric in the order of the clusters and items.
pub collect-first_named :
    (heap : ℕ → InstanceDomain) (pmda : Text) (m : Map ℕ MetricCluster) (name : Text)
    → find name (collect heap pmda m (record { metrics = []; domains = [] })).metrics
      ≡ first_named pmda m name
unfolding find
collect-first_named heap pmda m name =
    collect-find heap pmda m (record { metrics = []; domains = [] }) name
