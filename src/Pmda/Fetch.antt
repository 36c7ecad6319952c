-- ===== src/Pmda/Fetch.antt =====
-- pmda::on_fetch and pmda::on_fetch_callback (include/pcp-cpp/pmda.hpp).
use pcp_pmda_cpp.Base.{ℕ, Option, none, some, leb, ltb, if◌then◌else◌}
use pcp_pmda_cpp.Base.Int.{ℤ, pos}
use pcp_pmda_cpp.Pcp.{Pmapi}
use pcp_pmda_cpp.Exception.{Result, ok, err, pcp, out_of_range, std, unknown}
use pcp_pmda_cpp.Metrics.Defs.{PmDesc}
use pcp_pmda_cpp.Pmda.State.{
  Config, Pmda, Method, FetchValueResult, Agent, ◌>>=◌, pure, notify, entry, log_err,
}
use pcp_pmda_cpp.Pmda.Checked.{checked_description, caught}

-- pmdaMetric.
pub record PmdaMetric : Type 0 where
  pub m_user : ℕ
  pub m_desc : PmDesc

module _ {ℓ} {S : Type ℓ} (cfg : Config) (api : Pmapi) where
  unfoldable pub expected_type : ℕ → ℕ → ℕ → Method S ℕ
  expected_type cluster item inst =
      if cfg.no_id_validity_checks
      then pure api.type_unknown
      else checked_description cfg api cluster item inst >>= λ description. pure description.type

-- The value returned after a fetch, by interface version.
unfoldable pub fetch_code {κ} : {A : Type κ} → Config → FetchValueResult A → ℤ
fetch_code cfg result =
    if leb cfg.interface_version 2
    then pos 0
    else if ltb cfg.interface_version 4
    then pos 1
    else result.code

module _ {ℓ κ} {S : Type ℓ} {A : Type κ} (cfg : Config) (api : Pmapi) where
  -- What the `try` block of on_fetch_callback runs.
  unfoldable pub fetch_metric : Agent S A → PmdaMetric → ℕ → Method S (FetchValueResult A)
  fetch_metric agent mdesc inst = do
    let cluster = api.id_cluster mdesc.m_desc.pmid
    let item = api.id_item mdesc.m_desc.pmid
    t ← expected_type cfg api cluster item inst
    agent.fetch_value (record {
      cluster = cluster;
      item = item;
      instance_id = inst;
      type = t;
      opaque = mdesc.m_user;
    })

  unfoldable pub fetch_end : Result (FetchValueResult A) × Pmda S → (ℤ × Option A) × Pmda S
  fetch_end (ok result, s) = ((fetch_code cfg result, some result.atom), s)
  fetch_end (err e, s) = let (code, s') = caught api e s in ((code, none), s')

  -- The result with `*avp`, where it is written, and the members.
  unfoldable pub on_fetch_callback : Agent S A → PmdaMetric → ℕ → Pmda S → (ℤ × Option A) × Pmda S
  unfolding fetch_end
  on_fetch_callback agent mdesc inst s = fetch_end (fetch_metric agent mdesc inst s)

-- on_fetch: pmdaFetch, a function of the library that calls on_fetch_callback, takes over after
-- begin_fetch_values. An exception that is no pcp::exception passes on to the caller.
unfoldable pub fetch_begun {ℓ} :
    {S : Type ℓ} → (Pmda S → Result ℤ × Pmda S) → Result (Unit {0}) × Pmda S → Result ℤ × Pmda S
fetch_begun pmda_fetch (ok _, s) = pmda_fetch s
fetch_begun pmda_fetch (err (pcp ex), s) =
    (ok ex.pm_error_code, notify (entry log_err ex.message) s)
fetch_begun pmda_fetch (err out_of_range, s) = (err out_of_range, s)
fetch_begun pmda_fetch (err (std what), s) = (err (std what), s)
fetch_begun pmda_fetch (err unknown, s) = (err unknown, s)

unfoldable pub on_fetch {ℓ κ} :
    {S : Type ℓ} {A : Type κ} → Agent S A → (Pmda S → Result ℤ × Pmda S) → Method S ℤ
unfolding fetch_begun
on_fetch agent pmda_fetch s = fetch_begun pmda_fetch (agent.begin_fetch_values s)
