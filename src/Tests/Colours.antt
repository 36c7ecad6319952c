-- ===== src/Tests/Colours.antt =====
-- The colour of the example agent simple, from its constructor on.
use pcp_pmda_cpp.Base.{ℕ, ◌≡◌, ◌≢◌, refl, ap, arith, List, [], ◌∷◌, codes, none, some}
use pcp_pmda_cpp.Base.Int.{ℤ, pos}
use pcp_pmda_cpp.Pcp.{pcp4}
use pcp_pmda_cpp.Exception.{Result, ok}
use pcp_pmda_cpp.Atom.Defs.{Atom}
use pcp_pmda_cpp.Pmda.State.{Pmda, Agent}
use pcp_pmda_cpp.Pmda.Fetch.{PmdaMetric, on_fetch_callback, fetch_begun, on_fetch}
use pcp_pmda_cpp.Pmda.LifeCycle.{Process}
use pcp_pmda_cpp.Pmda.Callbacks.{set_callbacks, callback_fetch}
use pcp_pmda_cpp.Pmda.Serving.{Request, profile, fetch, Serves, idle, next}
use pcp_pmda_cpp.Simple.TimeNow.{Os, State, begin_fetch_values}
use pcp_pmda_cpp.Simple.BeginFetch.{Begun, begin_fetch_values-Begun}
use pcp_pmda_cpp.Simple.Agent.{simple}
use pcp_pmda_cpp.Simple.Served.{set_up}
use pcp_pmda_cpp.Simple.InBounds.{bounded}
use pcp_pmda_cpp.Metrics.Chain
use pcp_pmda_cpp.Metrics.MetricCall
use pcp_pmda_cpp.Simple.Program.{simple_init, simple_init-bounded}
use pcp_pmda_cpp.Pmda.Typed.{IsRegistered, on_fetch_callback-IsRegistered}
use pcp_pmda_cpp.Simple.Typed.{simple-IsTyped}
use pcp_pmda_cpp.Tests.Atoms.{whole_floats}
use pcp_pmda_cpp.Tests.Cache.{Entries}
use pcp_pmda_cpp.Tests.Fixtures.{config, fresh}
use pcp_pmda_cpp.Tests.Requests.{defaults}
use pcp_pmda_cpp.Tests.TimeSlices.{cache, cache-Accepts, slice, os}

abbrev pub simple_agent : Os × (ℤ × ℤ) → Agent (State whole_floats Entries) (Atom whole_floats)
simple_agent = simple whole_floats pcp4 cache 16 32 slice

-- The members before the constructor.
abbrev pub raw : Pmda (State whole_floats Entries)
raw = fresh (
  record { numfetch = 9; rgb = []; oldfetch = 0; usr = pos 0; sys = pos 0 },
  record { cache = []; tm_field = λ p. pos 0; last_error = pos 0; file_change = (pos 0, pos 0) },
)

pub apart : ◌≢◌ {A = ℕ} 16 32
apart = omega arith

abbrev pub ready : Pmda (State whole_floats Entries)
ready = set_up whole_floats pcp4 cache 16 32 slice apart (λ t i. i) (os, (pos 0, pos 0)) raw

abbrev pub started : Process (State whole_floats Entries)
started = record { instance_ = some ready; freed = []; process_log = [] }

begun :
    (s' : Pmda (State whole_floats Entries)) × (begin_fetch_values whole_floats pcp4 cache 32 slice
        os ready
      ≡ (ok tt, s'))
    × Begun whole_floats pcp4 cache 32 slice cache-Accepts os ready s'
begun =
    begin_fetch_values-Begun whole_floats pcp4 cache 32 slice cache-Accepts (omega arith)
      (omega arith) (omega arith) os ready

abbrev ended : Process (State whole_floats Entries)
ended = record started { instance_ = some begun.0 }

abbrev asked : List (Request × Result ℤ)
asked = (profile 5, ok (pos 0)) ∷ (fetch (7 ∷ []), ok (pos 0)) ∷ []

fetched :
    callback_fetch config pcp4 defaults (simple_agent (os, (pos 1, pos 2))) (7 ∷ []) started
    ≡ some (ok (pos 0), ended)
unfolding callback_fetch simple on_fetch fetch_begun
fetched =
    ap
      (λ x.
        let (r, s) = fetch_begun (λ t. (ok (pos 0), t)) x in
        some (r, record started { instance_ = some s }))
      begun.1

served : Serves config pcp4 defaults simple_agent started asked ended
unfolding set_callbacks
served = next (os, (pos 0, pos 0)) refl refl (next (os, (pos 1, pos 2)) refl fetched idle)

abbrev loaded : Result (Unit {0}) × Process (State whole_floats Entries)
loaded =
    simple_init whole_floats config pcp4 cache (codes "out_of_range") 16 32 slice (λ t i. i)
      (os, (pos 0, pos 0)) 7 (pos 0) raw (record { instance_ = none; freed = []; process_log = [] })

simple_init-bounded_example :
    (loaded.0 ≡ ok tt)
    × Serves config pcp4 defaults (bounded whole_floats pcp4 cache 16 32 slice) loaded.1 asked ended
unfolding simple_init simple Chain.call MetricCall.flags_domain MetricCall.domain_flags
    MetricCall.domain_texts
simple_init-bounded_example =
    simple_init-bounded whole_floats config pcp4 cache (codes "out_of_range") 16 32 slice (λ t i. i)
      (os, (pos 0, pos 0)) apart refl defaults 7 (pos 0) raw
      (record { instance_ = none; freed = []; process_log = [] }) ended asked (omega arith) refl
      served

abbrev mdesc : PmdaMetric
mdesc = record {
  m_user = 0;
  m_desc = record { indom = 0; pmid = pcp4.pmda_pmid 0 1; sem = 0; type = 0; units = 0 };
}

on_fetch_callback-IsRegistered_example :
    IsRegistered whole_floats pcp4
      (pcp4.id_cluster (pcp4.pmda_pmid 0 1))
      (pcp4.id_item (pcp4.pmda_pmid 0 1))
      ready
      (on_fetch_callback config pcp4 (simple_agent (os, (pos 1, pos 2))) mdesc 2 ready).0.1
on_fetch_callback-IsRegistered_example =
    on_fetch_callback-IsRegistered whole_floats pcp4 config (simple_agent (os, (pos 1, pos 2)))
      (simple-IsTyped whole_floats pcp4 cache 16 32 slice (os, (pos 1, pos 2))) refl mdesc 2 ready
