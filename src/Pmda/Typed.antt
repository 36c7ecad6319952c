-- ===== src/Pmda/Typed.antt =====
-- The type of the atoms that on_fetch_callback writes (include/pcp-cpp/pmda.hpp).
use pcp_pmda_cpp.Base.{ℕ, ◌≡◌, sym, subst, false, Option, none, some}
use pcp_pmda_cpp.Pcp.{Pmapi}
use pcp_pmda_cpp.Exception.{Result, ok, err}
use pcp_pmda_cpp.Metrics.Defs.{MetricDescription}
use pcp_pmda_cpp.Metrics.Lookup.{lookup}
use pcp_pmda_cpp.Atom.Defs.{Floats, Atom, Value, atom}
use pcp_pmda_cpp.Atom.Convert.{FitsType, atom-FitsType}
use pcp_pmda_cpp.Pmda.State.{Config, Pmda, MetricId, FetchValueResult, Agent, static_result}
use pcp_pmda_cpp.Pmda.Fetch.{PmdaMetric, fetch_end, on_fetch_callback}
use pcp_pmda_cpp.Pmda.LetThrough.{
  IsLetThrough, checked_description-IsLetThrough, fetch_checked, fetch_metric-checked,
}

module _ (fl : Floats) (api : Pmapi) where
  -- An atom, where there is one, is in the member of a type, and in that member's range.
  unfoldable pub IsOfType : ℕ → Result (FetchValueResult (Atom fl)) → Type 0
  IsOfType t (ok r) = FitsType fl api t (ok r.atom)
  IsOfType t (err e) = Unit {0}

  -- The agent's fetch_value gives atoms of the type that it is asked for.
  unfoldable pub IsTyped {ℓ} : {S : Type ℓ} → Agent S (Atom fl) → Type ℓ
  IsTyped {S} agent = (id : MetricId) (s : Pmda S) → IsOfType id.type (agent.fetch_value id s).0

  pub static_result-IsOfType :
      (t : ℕ) (v : Value fl) → IsOfType t (static_result api (atom fl api t v))
  unfolding static_result IsOfType
  static_result-IsOfType t v = of_atom (atom fl api t v) (atom-FitsType fl api t v)
    where
      of_atom : (r : Result (Atom fl)) → FitsType fl api t r → IsOfType t (static_result api r)
      of_atom (ok a) h = h
      of_atom (err e) h = tt

  -- The written atom, where there is one, is of the type of the metric in the table.
  unfoldable pub IsRegistered {ℓ} : {S : Type ℓ} → ℕ → ℕ → Pmda S → Option (Atom fl) → Type 0
  IsRegistered c i s none = Unit {0}
  IsRegistered c i s (some a) =
      (d : MetricDescription) × (lookup c i s.supported_metrics ≡ some d)
      × FitsType fl api d.type (ok a)

  module _ {ℓ} {S : Type ℓ} (cfg : Config) (agent : Agent S (Atom fl)) (typed : IsTyped agent) where
    fetch_end-IsRegistered :
        (c i : ℕ) (s s' : Pmda S) (d : MetricDescription) (r : Result (FetchValueResult (Atom fl)))
        → lookup c i s.supported_metrics ≡ some d
        → IsOfType d.type r
        → IsRegistered c i s (fetch_end cfg api (r, s')).0.1
    unfolding fetch_end IsRegistered IsOfType
    fetch_end-IsRegistered c i s s' d (ok r) found h = (d, found, h)
    fetch_end-IsRegistered c i s s' d (err e) found h = tt

    checked-IsRegistered :
        (on : cfg.no_id_validity_checks ≡ false) (m : PmdaMetric) (inst : ℕ) (s : Pmda S)
        (r : Result MetricDescription)
        → let c = api.id_cluster m.m_desc.pmid in
          let i = api.id_item m.m_desc.pmid in
          IsLetThrough cfg api on c i inst s r
          → IsRegistered c i s (fetch_end cfg api (fetch_checked cfg api agent on m inst s r)).0.1
    unfolding fetch_checked IsLetThrough IsTyped fetch_end IsRegistered
    checked-IsRegistered on m inst s (ok d) (found, _) =
        fetch_end-IsRegistered _ _ s _ d _ found (typed _ s)
    checked-IsRegistered on m inst s (err e) l = tt

    -- With the checks compiled in, on_fetch_callback writes an atom only for a metric of the table,
    -- and then it is in the member of the type that the metric was registered with, and in that
    -- member's range, where the agent's fetch_value gives atoms of the type that it is asked for.
    pub on_fetch_callback-IsRegistered :
        cfg.no_id_validity_checks ≡ false
        → (m : PmdaMetric) (inst : ℕ) (s : Pmda S)
        → IsRegistered
            (api.id_cluster m.m_desc.pmid)
            (api.id_item m.m_desc.pmid)
            s
            (on_fetch_callback cfg api agent m inst s).0.1
    unfolding on_fetch_callback
    on_fetch_callback-IsRegistered on m inst s =
        let (r, run, l) =
          checked_description-IsLetThrough cfg api on (api.id_cluster m.m_desc.pmid)
            (api.id_item m.m_desc.pmid) inst s in
        subst
          (λ x.
            IsRegistered (api.id_cluster m.m_desc.pmid) (api.id_item m.m_desc.pmid) s
              (fetch_end cfg api x).0.1)
          (sym (fetch_metric-checked cfg api agent on m inst s r run))
          (checked-IsRegistered on m inst s r l)
