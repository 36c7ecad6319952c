-- ===== src/Pmda/State.antt =====
-- The members of pcp::pmda, its virtual methods, and code that reads and changes the members and
-- may throw (include/pcp-cpp/pmda.hpp).
use pcp_pmda_cpp.Base.{ℕ, Text, List, ◌∷◌, Bool}
use pcp_pmda_cpp.Base.Int.{ℤ}
use pcp_pmda_cpp.Map.{Map}
use pcp_pmda_cpp.Pcp.{Pmapi}
use pcp_pmda_cpp.Exception.{Result, ok, err}
use pcp_pmda_cpp.InstanceDomain.{InstanceDomain}
use pcp_pmda_cpp.Metrics.Defs.{MetricsDescription}

-- The macros that select code: PCP_CPP_PMDA_INTERFACE_VERSION, and whether
-- PCP_CPP_NO_ID_VALIDITY_CHECKS is defined.
pub record Config : Type 0 where
  pub interface_version : ℕ
  pub no_id_validity_checks : Bool

pub data Priority : Type 0 where
  log_err log_warning log_notice log_info log_debug : Priority

-- A call of pmNotifyErr: with a text, or with the place in the source and the text of a
-- standard exception.
pub data LogEntry : Type 0 where
  entry : Priority → Text → LogEntry
  at_position : Priority → LogEntry

-- The members, with the agent's own in `agent`, the objects that pointers to instance domains
-- lead to (every such pointer leads to one), and what has been logged, and written to each named
-- file or to "-", the latest first. A copy that strdup made is its text. The last member but one
-- is the variable that is static in export_pmns_data.
pub record Pmda {ℓ} (S : Type ℓ) : Type ℓ where
  pub supported_metrics : MetricsDescription
  pub instance_domains : Map ℕ ℕ
  pub free_on_destruction : List Text
  pub heap : ℕ → InstanceDomain
  pub log : List LogEntry
  pub output : List (Text × Text)
  pub previous_cluster_name : Text
  pub agent : S

-- The members that were set before an exception stay set.
abbrev pub Method {ℓ κ} : Type ℓ → Type κ → Type (ℓ ⊔ κ)
Method S A = Pmda S → Result A × Pmda S

infixl 5 ◌>>=◌ ◌>>◌
abbrev pub ◌>>=◌ {ℓ κ μ} :
    {S : Type ℓ} {A : Type κ} {B : Type μ} → Method S A → (A → Method S B) → Method S B
◌>>=◌ m k s = let (r, s') = m s in elim r [ ok a ↦ k a s' | err e ↦ (err e, s') ]

abbrev pub ◌>>◌ {ℓ κ μ} :
    {S : Type ℓ} {A : Type κ} {B : Type μ} → Method S A → Method S B → Method S B
m >> k = m >>= λ _. k

module _ {ℓ} {S : Type ℓ} where
  abbrev pub pure {κ} : {A : Type κ} → A → Method S A
  pure a s = (ok a, s)

  abbrev pub lift {κ} : {A : Type κ} → Result A → Method S A
  lift r s = (r, s)

  abbrev pub gets {κ} : {A : Type κ} → (Pmda S → A) → Method S A
  gets f s = (ok (f s), s)

  -- pmNotifyErr.
  unfoldable pub notify : LogEntry → Pmda S → Pmda S
  notify e s = record s { log = e ∷ s.log }

-- metric_id.
pub record MetricId : Type 0 where
  pub cluster : ℕ
  pub item : ℕ
  pub instance_id : ℕ
  pub type : ℕ
  pub opaque : ℕ

-- fetch_value_result; `A` is pmAtomValue.
pub record FetchValueResult {ℓ} (A : Type ℓ) : Type ℓ where
  pub atom : A
  pub code : ℤ

-- `fetch_value_result(atom)`, its code defaulted; or what atom() threw.
unfoldable pub static_result {ℓ} : {A : Type ℓ} → Pmapi → Result A → Result (FetchValueResult A)
static_result api (ok a) = ok (record { atom = a; code = api.fetch_static })
static_result api (err e) = err e

-- The virtual methods that an agent defines or overrides.
pub record Agent {ℓ κ} (S : Type ℓ) (A : Type κ) : Type (ℓ ⊔ κ) where
  pub get_supported_metrics : Method S MetricsDescription
  pub begin_fetch_values : Method S (Unit {0})
  pub fetch_value : MetricId → Method S (FetchValueResult A)
  -- store_value of an int, and of a pmValueBlock.
  pub store_int : MetricId → ℤ → Method S (Unit {0})
  pub store_block : MetricId → ℕ → Method S (Unit {0})
