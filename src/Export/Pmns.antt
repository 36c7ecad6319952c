-- ===== src/Export/Pmns.antt =====
-- export_pmns_data: the name space of an agent's metrics, in three passes over the clusters.
use pcp_pmda_cpp.Base.{
  ℕ, ◌+◌, ◌-◌, Bool, Text, codes, text_eq, [], ◌∷◌, ◌++◌, is_empty, length, replicate, ltb, decimal,
  if◌then◌else◌,
}
use pcp_pmda_cpp.Base.Int.{decimal_ℤ}
use pcp_pmda_cpp.Pcp.{Pmapi}
use pcp_pmda_cpp.Map.{Map}
use pcp_pmda_cpp.Metrics.Defs.{MetricDescription, MetricCluster, MetricsDescription}
use pcp_pmda_cpp.Exception.{ok, err}
use pcp_pmda_cpp.Pmda.State.{Method}
use pcp_pmda_cpp.Export.Files.{Identity, upper_name, endl, write_file}

-- The `#ifndef` block.
unfoldable pub pmns_prologue : Identity → Text
unfolding upper_name
pmns_prologue id =
    endl
    ++ codes "#ifndef "
    ++ upper_name id
    ++ endl
    ++ codes "#define "
    ++ upper_name id
    ++ codes " "
    ++ decimal_ℤ id.default_domain_number
    ++ endl
    ++ codes "#endif"
    ++ endl

-- First pass: `n` is the longest length so far.
abbrev pub longer : ℕ → ℕ → ℕ
longer size n = if ltb n size then size else n

unfoldable pub longest_in_cluster : Map ℕ MetricDescription → ℕ → ℕ
longest_in_cluster [] n = n
longest_in_cluster ((i, d) ∷ m) n = longest_in_cluster m (longer (length d.metric_name) n)

unfoldable pub longest_name : Map ℕ MetricCluster → ℕ → ℕ
unfolding longest_in_cluster
longest_name [] n = n
longest_name ((c, k) ∷ m) n = longest_name m (longest_in_cluster k.metrics n)

-- A metric's line, its name padded to the width of the longest one.
unfoldable pub metric_line : Text → ℕ → ℕ → ℕ → Text → Text
metric_line upper widest cluster_id item name =
    codes "    "
    ++ name
    ++ replicate (widest - length name + 4) b' '
    ++ (upper ++ codes ":" ++ decimal cluster_id ++ codes ":" ++ decimal item ++ endl)

unfoldable pub metric_lines : Text → ℕ → ℕ → Map ℕ MetricDescription → Text
unfolding metric_line
metric_lines upper widest cluster_id [] = []
metric_lines upper widest cluster_id ((i, d) ∷ m) =
    metric_line upper widest cluster_id i d.metric_name ++ metric_lines upper widest cluster_id m

-- Second pass: the lines of ungrouped metrics, and a line for each group whose name is not that of
-- the one before it; gives the text and the last group's name.
unfoldable pub group_names : Text → ℕ → Map ℕ MetricCluster → Text → Text × Text
unfolding metric_lines
group_names upper widest [] previous = ([], previous)
group_names upper widest ((c, k) ∷ m) previous =
    let same = group_names upper widest m previous in
    let other = group_names upper widest m k.cluster_name in
    if is_empty k.cluster_name
    then (metric_lines upper widest k.cluster_id k.metrics ++ same.0, same.1)
    else if text_eq k.cluster_name previous
    then same
    else (codes "    " ++ k.cluster_name ++ endl ++ other.0, other.1)

-- Third pass: what is written from here on, where `previous` is the group that is open.
unfoldable pub group_blocks : Text → Text → ℕ → Map ℕ MetricCluster → Text → Text
unfolding metric_lines
group_blocks pmda upper widest [] previous = if is_empty previous then [] else codes "}" ++ endl
group_blocks pmda upper widest ((c, k) ∷ m) previous =
    let skipped = group_blocks pmda upper widest m previous in
    let rest = group_blocks pmda upper widest m k.cluster_name in
    let lines = metric_lines upper widest k.cluster_id k.metrics in
    let close = if is_empty previous then [] else codes "}" ++ endl in
    if is_empty k.cluster_name
    then skipped
    else if text_eq k.cluster_name previous
    then lines ++ rest
    else close ++ endl ++ pmda ++ codes "." ++ k.cluster_name ++ codes " {" ++ endl ++ lines ++ rest

-- The whole text, and the name that the static variable keeps.
unfoldable pub pmns_data : Identity → MetricsDescription → Text → Text × Text
unfolding pmns_prologue longest_name group_names group_blocks upper_name
pmns_data id m previous =
    let widest = longest_name m.clusters 0 in
    let names = group_names (upper_name id) widest m.clusters previous in
    (
      pmns_prologue id
          ++ endl
          ++ id.pmda_name
          ++ codes " {"
          ++ endl
          ++ names.0
          ++ codes "}"
          ++ endl
          ++ group_blocks id.pmda_name (upper_name id) widest m.clusters []
          ++ endl,
      names.1,
    )

-- The static variable changes only once the file is open.
unfoldable pub export_pmns_data {ℓ} :
    {S : Type ℓ} → Pmapi → (Text → Bool) → Identity → Text → Method S (Unit {0})
unfolding pmns_data write_file
export_pmns_data api can_open id filename s =
    let data_ = pmns_data id s.supported_metrics s.previous_cluster_name in
    let (r, s') = write_file api can_open filename data_.0 s in
    elim r [ ok u ↦ (ok u, record s' { previous_cluster_name = data_.1 }) | err e ↦ (err e, s') ]
