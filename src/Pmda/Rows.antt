-- ===== src/Pmda/Rows.antt =====
-- The tables of initialize_pmda, described without loops (include/pcp-cpp/pmda.hpp): the metrics in
-- order, and the instance domains in the order in which they first occur.
use mathlib.Core.Option
use pcp_pmda_cpp.Base.{
  ℕ, suc, ◌≤◌, ◌<◌, ◌≡◌, refl, ◌==◌, List, [], ◌∷◌, ◌++◌, length, length-append, Option, none, some,
  if◌then◌else◌, or_else, is_some, arith, Option-cases, inl, inr,
}
use pcp_pmda_cpp.Map.{Map}
use pcp_pmda_cpp.Pcp.{Pmapi}
use pcp_pmda_cpp.Metrics.Defs.{MetricDescription, MetricCluster}
use pcp_pmda_cpp.Pmda.Fetch.{PmdaMetric}

-- A metric with the number of its cluster and its item.
pub record Row : Type 0 where
  pub cluster_id : ℕ
  pub item : ℕ
  pub description : MetricDescription

abbrev pub cluster_rows : ℕ → Map ℕ MetricDescription → List Row
cluster_rows c [] = []
cluster_rows c ((i, d) ∷ m) =
    record { cluster_id = c; item = i; description = d } ∷ cluster_rows c m

abbrev pub rows : Map ℕ MetricCluster → List Row
rows [] = []
rows ((_, k) ∷ m) = cluster_rows k.cluster_id k.metrics ++ rows m

-- Where a pointer stands in a list.
abbrev pub position? : ℕ → List ℕ → Option ℕ
position? p [] = none
position? p (q ∷ ds) = if p == q then some 0 else Option.map suc (position? p ds)

abbrev pub with_domain : List ℕ → Option ℕ → List ℕ
with_domain ds none = ds
with_domain ds (some p) = if is_some (position? p ds) then ds else ds ++ p ∷ []

-- The instance domains of the rows, in the order in which they first occur, after those of `ds`.
abbrev pub domains_from : List ℕ → List Row → List ℕ
domains_from ds [] = ds
domains_from ds (r ∷ rs) = domains_from (with_domain ds r.description.domain) rs

abbrev pub indom_of : Pmapi → List ℕ → Option ℕ → ℕ
indom_of api ds none = api.indom_null
indom_of api ds (some p) = or_else (position? p ds) (length ds)

-- The entry of the metric table for a row.
abbrev pub metric_entry : Pmapi → List ℕ → Row → PmdaMetric
metric_entry api ds r = record {
  m_user = r.description.opaque;
  m_desc = record {
    indom = indom_of api ds r.description.domain;
    pmid = api.pmda_pmid r.cluster_id r.item;
    sem = r.description.semantic;
    type = r.description.type;
    units = r.description.units;
  };
}

pub position?-append :
    (p q : ℕ) (ds : List ℕ)
    → position? p (ds ++ q ∷ []) ≡ (
        if is_some (position? p ds)
        then position? p ds
        else if p == q
        then some (length ds)
        else none)
position?-append p q [] = ground arith
position?-append p q (d ∷ ds) = ground (arith, position?-append p q ds)

pub position?-lt : (p : ℕ) (ds : List ℕ) {i : ℕ} → position? p ds ≡ some i → i < length ds
position?-lt p [] e = cc
position?-lt p (d ∷ ds) {i} e = elim (Option-cases (position? p ds)) [
  | inl n ↦ ground arith
  | inr (j, h) ↦ ground (arith, position?-lt p ds h)
]

pub position?-with_domain :
    (p : ℕ) (ds : List ℕ) (o : Option ℕ) {i : ℕ}
    → position? p ds ≡ some i
    → position? p (with_domain ds o) ≡ some i
position?-with_domain p ds none e = e
position?-with_domain p ds (some q) e = ground (arith, position?-append p q ds)

pub position?-domains_from :
    (p : ℕ) (ds : List ℕ) (rs : List Row) {i : ℕ}
    → position? p ds ≡ some i
    → position? p (domains_from ds rs) ≡ some i
position?-domains_from p ds [] e = e
position?-domains_from p ds (r ∷ rs) e =
    position?-domains_from p (with_domain ds r.description.domain) rs
      (position?-with_domain p ds r.description.domain e)

-- A domain that a row has just named has a position.
pub position?-with_domain_self :
    (p : ℕ) (ds : List ℕ)
    → position? p (with_domain ds (some p)) ≡ some (or_else (position? p ds) (length ds))
position?-with_domain_self p ds = ground (arith, position?-append p p ds)

pub length-with_domain_le : (ds : List ℕ) (o : Option ℕ) → length ds ≤ length (with_domain ds o)
length-with_domain_le ds none = omega arith
length-with_domain_le ds (some p) = ground (arith, length-append ds (p ∷ []))

pub length-domains_from_le : (ds : List ℕ) (rs : List Row) → length ds ≤ length (domains_from ds rs)
length-domains_from_le ds [] = omega arith
length-domains_from_le ds (r ∷ rs) = omega (
  arith,
  length-with_domain_le ds r.description.domain,
  length-domains_from_le (with_domain ds r.description.domain) rs,
)

-- The identifier of a row's domain is settled when the row is reached.
pub indom_of-domains_from :
    (api : Pmapi) (ds : List ℕ) (o : Option ℕ) (rs : List Row)
    → indom_of api (domains_from (with_domain ds o) rs) o ≡ indom_of api ds o
indom_of-domains_from api ds none rs = refl
indom_of-domains_from api ds (some p) rs =
    rw (position?-domains_from p (with_domain ds (some p)) rs (position?-with_domain_self p ds))
