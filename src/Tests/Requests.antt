-- ===== src/Tests/Requests.antt =====
-- The small agent asked through the table of callbacks.
use pcp_pmda_cpp.Base.{ℕ, ◌≡◌, refl, List, [], ◌∷◌, none, some}
use pcp_pmda_cpp.Base.Int.{ℤ, pos, negsuc}
use pcp_pmda_cpp.Pcp.{pcp4}
use pcp_pmda_cpp.Exception.{Result, ok}
use pcp_pmda_cpp.Pmda.State.{Pmda, notify}
use pcp_pmda_cpp.Pmda.LifeCycle.{Process}
use pcp_pmda_cpp.Pmda.Callbacks.{Defaults, set_callbacks}
use pcp_pmda_cpp.Pmda.Preserves.{Keeps, Preserves}
use pcp_pmda_cpp.Pmda.Serving.{
  Request, profile, fetch, name, Serves, idle, next, HasInstance, Serves-HasInstance,
}
use pcp_pmda_cpp.Tests.Fixtures.{config, supported, agent, ready}

abbrev pub defaults : Defaults
defaults = record {
  pmda_attribute = λ ctx attr value length. pos 0;
  pmda_children = λ n traverse. pos 0;
  pmda_desc = λ id. pos 0;
  pmda_fetch = λ ids. pos 0;
  pmda_instance = λ indom inst n. pos 0;
  pmda_name = λ id. negsuc 12356;
  pmda_pmid = λ n. pos 0;
  pmda_profile = λ prof. pos 0;
  pmda_store = λ sets. pos 0;
  pmda_text = λ ident type. (pos 0, none);
}

abbrev started : Process ℕ
started = record { instance_ = some ready; freed = []; process_log = [] }

-- The agent's own count after two calls.
abbrev ended : Process ℕ
ended = record { instance_ = some (record ready { agent = 1 }); freed = []; process_log = [] }

abbrev asked : List (Request × Result ℤ)
asked = (profile 5, ok (pos 0)) ∷ (fetch (7 ∷ []), ok (pos 0)) ∷ (name 9, ok (negsuc 12356)) ∷ []

served : Serves config pcp4 defaults (λ (w : Unit {0}). agent) started asked ended
unfolding set_callbacks
served = next tt refl refl (next tt refl refl (next tt refl refl idle))

abbrev IsSupported : Pmda ℕ → Type 0
IsSupported s = s.supported_metrics ≡ supported

agent-Keeps : Keeps IsSupported agent
unfolding notify Preserves
agent-Keeps = record {
  notify_keeps = λ e s p. p;
  begin_keeps = λ s p. p;
  fetch_keeps = λ id s p. p;
  int_keeps = λ id v s p. p;
  block_keeps = λ id v s p. p;
}

Serves-HasInstance_example : HasInstance IsSupported ended
unfolding HasInstance
Serves-HasInstance_example =
    Serves-HasInstance config pcp4 defaults (λ (w : Unit {0}). agent) IsSupported started ended
      asked (λ w. agent-Keeps) served (ready, refl, refl)
