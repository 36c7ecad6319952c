-- ===== src/Pmda/Interface.antt =====
-- What initialize_pmda leaves in the interface: the callbacks and the tables
-- (include/pcp-cpp/pmda.hpp).
use pcp_pmda_cpp.Base.{ℕ, leb, if◌then◌else◌, Option, none, some}
use pcp_pmda_cpp.Base.Int.{ℤ}
use pcp_pmda_cpp.Pcp.{Pmapi}
use pcp_pmda_cpp.Exception.{Result, ok, err}
use pcp_pmda_cpp.Pmda.State.{Config, Pmda, Method, Agent}
use pcp_pmda_cpp.Pmda.Fetch.{on_fetch, on_fetch_callback}
use pcp_pmda_cpp.Pmda.Store.{on_store}
use pcp_pmda_cpp.Pmda.HelpText.{on_text}
use pcp_pmda_cpp.Pmda.Init.{Tables, initialize_pmda}
use pcp_pmda_cpp.Pmda.Callbacks.{Defaults, Callback, CallbackTable, through_instance, set_callbacks}
use pcp_pmda_cpp.Pmda.Serving.{
  Request, profile, fetch, desc, instance_, text, store, pmid, name, children, attribute,
  fetch_callback,
}

-- The interface version from which on a request has a callback.
abbrev pub since : Request → ℕ
since (pmid n) = 4
since (name id) = 4
since (children n traverse) = 4
since (attribute ctx attr value length) = 6
since _ = 0

module _ {ℓ κ} {S : Type ℓ} {A : Type κ} (cfg : Config) (api : Pmapi) (lib : Defaults)
    (agent : Agent S A) where
  -- The interface after the assertions, if none failed.
  abbrev with_callbacks :
      CallbackTable S
      → Result (Option Tables) × Pmda S
      → Result (Option (Tables × CallbackTable S)) × Pmda S
  with_callbacks filled (ok none, s) = (ok none, s)
  with_callbacks filled (ok (some t), s) = (ok (some (t, filled)), s)
  with_callbacks filled (err e, s) = (err e, s)

  -- initialize_pmda on an interface with the callbacks `table`: the ones that set_callbacks leaves,
  -- before pmdaInit, and the tables that pmdaInit is given.
  unfoldable pub initialize_interface :
      (Tables → ℕ → ℕ) → CallbackTable S → Method S (Option (Tables × CallbackTable S))
  initialize_interface pmda_init table s =
      with_callbacks (set_callbacks cfg api lib agent table) (initialize_pmda api agent pmda_init s)

  -- What the instance does for a request, and the code that it answers.
  abbrev pub answered : Request → Pmda S → Result ℤ × Pmda S
  answered (profile prof) s = (ok (lib.pmda_profile prof), s)
  answered (fetch pmids) s = on_fetch agent (λ t. (ok (lib.pmda_fetch pmids), t)) s
  answered (desc id) s = (ok (lib.pmda_desc id), s)
  answered (instance_ indom inst n) s = (ok (lib.pmda_instance indom inst n), s)
  answered (text ident type) s =
      let ((code, _), s') = on_text api (lib.pmda_text ident type) ident type s in (ok code, s')
  answered (store sets) s =
      let (code, s') = on_store cfg api agent (lib.pmda_store sets) sets s in (ok code, s')
  answered (pmid n) s = (ok (lib.pmda_pmid n), s)
  answered (name id) s = (ok (lib.pmda_name id), s)
  answered (children n traverse) s = (ok (lib.pmda_children n traverse), s)
  answered (attribute ctx attr value length) s = (ok (lib.pmda_attribute ctx attr value length), s)
  answered (fetch_callback mdesc inst) s =
      let ((code, _), s') = on_fetch_callback cfg api agent mdesc inst s in (ok code, s')

  -- The callback for a request, in an interface that had `old` for it.
  abbrev pub given : Request → Option (Callback S) → Option (Callback S)
  given r old =
      if leb (since r) cfg.interface_version then some (through_instance (answered r)) else old
