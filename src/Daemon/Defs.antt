-- ===== src/Daemon/Defs.antt =====
-- pmda::run_daemon, the virtual one (include/pcp-cpp/pmda.hpp).
use pcp_pmda_cpp.Base.{
  ℕ, ◌+◌, Bool, true, false, is_empty, if◌then◌else◌, Text, c_str, List, [], ◌∷◌, ◌++◌, Option,
  none, some,
}
use pcp_pmda_cpp.Base.Int.{ℤ}
use pcp_pmda_cpp.Pcp.{Pmapi}
use pcp_pmda_cpp.Exception.{Result, ok, err}
use pcp_pmda_cpp.Pmda.State.{Config, Pmda, Agent}
use pcp_pmda_cpp.Pmda.Init.{Tables, initialize_pmda}
use pcp_pmda_cpp.Export.Files.{Identity}
use pcp_pmda_cpp.CommandLine.Defs.{Environment, Interface}
use pcp_pmda_cpp.CommandLine.Parse.{parse_command_line}
use pcp_pmda_cpp.Daemon.Paths.{get_help_text_pathname, get_log_file_pathname}

-- A call that run_daemon makes, with what it passes: of pmSetProgname, of pmdaDaemon (a NULL help
-- text is `none`), of pmdaOpenLog, of initialize_pmda, which calls pmdaInit, of pmdaConnect, of
-- pmdaMain, and of `delete []` for the `it_set` of an entry, for e_indoms and for e_metrics.
pub data Call : Type 0 where
  set_progname : Text → Call
  daemon : ℕ → Text → ℤ → Text → Option Text → Call
  open_log : Interface → Call
  initialize : Call
  connect : Interface → Call
  main : Interface → Call
  delete_it_set : ℕ → Call
  delete_indoms : Call
  delete_metrics : Call

-- A run that ended normally, by an exception, or by a failed assertion, with the members and the
-- calls that were made.
pub data End : Type 0 where
  returned : End
  aborted : End

pub record Ran {ℓ} (S : Type ℓ) : Type ℓ where
  pub outcome : Result End
  pub members : Pmda S
  pub calls : List Call

unfoldable pub opening : Config → Pmapi → Identity → List Call
unfolding get_help_text_pathname get_log_file_pathname
opening cfg api id =
    let help = get_help_text_pathname api id.pmda_name in
    set_progname (c_str id.pmda_name)
    ∷ daemon cfg.interface_version (c_str id.pmda_name) id.default_domain_number
        (c_str (get_log_file_pathname id.pmda_name))
        (if is_empty help then none else some (c_str help))
    ∷ []

-- The loop over the e_nindoms entries, from an index on.
unfoldable pub delete_it_sets : ℕ → List ℕ → List Call
delete_it_sets index [] = []
delete_it_sets index (_ ∷ entries) = delete_it_set index ∷ delete_it_sets (index + 1) entries

unfoldable pub closing : Tables → List Call
unfolding delete_it_sets
closing t = delete_it_sets 0 t.instance_domains ++ (delete_indoms ∷ delete_metrics ∷ [])

-- `serve` is what the callbacks that pmdaMain makes do to the members until it returns, or until one
-- of them throws.
module _ {ℓ κ} {S : Type ℓ} {A : Type κ} (cfg : Config) (api : Pmapi) (can_open : Text → Bool)
    (env : Environment) (id : Identity) (agent : Agent S A) (pmda_init : Tables → ℕ → ℕ)
    (serve : Pmda S → Result (Unit {0}) × Pmda S) where
  -- What pmdaMain leaves; an exception of a callback passes through it.
  unfoldable pub after_main : List Call → Tables → Result (Unit {0}) × Pmda S → Ran S
  unfolding closing
  after_main calls t (ok u, s) = record {
    outcome = ok returned;
    members = s;
    calls = calls ++ closing t;
  }
  after_main calls t (err e, s) = record { outcome = err e; members = s; calls = calls }

  unfoldable pub after_initialize : Interface → List Call → Result (Option Tables) × Pmda S → Ran S
  unfolding after_main
  after_initialize i calls (err e, s) = record { outcome = err e; members = s; calls = calls }
  after_initialize i calls (ok none, s) = record {
    outcome = ok aborted;
    members = s;
    calls = calls;
  }
  after_initialize i calls (ok (some t), s) =
      after_main (calls ++ connect i ∷ main i ∷ []) t (serve s)

  unfoldable pub after_parse : Result (Bool × Interface) × Pmda S → Ran S
  unfolding opening after_initialize initialize_pmda
  after_parse (err e, s) = record { outcome = err e; members = s; calls = opening cfg api id }
  after_parse (ok (false, i), s) = record {
    outcome = ok returned;
    members = s;
    calls = opening cfg api id;
  }
  after_parse (ok (true, i), s) =
      after_initialize i (opening cfg api id ++ open_log i ∷ initialize ∷ [])
        (initialize_pmda api agent pmda_init s)

  -- `interface` is what pmdaDaemon makes of it.
  unfoldable pub run_daemon : List Text → Interface → Pmda S → Ran S
  unfolding after_parse parse_command_line
  run_daemon argv interface s =
      after_parse (parse_command_line cfg api can_open env id agent argv interface s)
