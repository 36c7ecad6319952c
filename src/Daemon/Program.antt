-- ===== src/Daemon/Program.antt =====
-- A program whose main is run_daemon<Agent>, and a DSO whose entry point is init_dso<Agent>: the
-- static functions on the virtual ones (include/pcp-cpp/pmda.hpp).
use pcp_pmda_cpp.Base.{ℕ, Bool, Text, List, Option, none, some}
use pcp_pmda_cpp.Base.Int.{ℤ}
use pcp_pmda_cpp.Pcp.{Pmapi}
use pcp_pmda_cpp.Exception.{Result, ok, err}
use pcp_pmda_cpp.Pmda.State.{Config, Pmda, Agent}
use pcp_pmda_cpp.Pmda.Init.{Tables}
use pcp_pmda_cpp.Pmda.LifeCycle
use pcp_pmda_cpp.Pmda.LifeCycle.{Process, initialize_dso, init_dso}
use pcp_pmda_cpp.Export.Files.{Identity}
use pcp_pmda_cpp.CommandLine.Defs.{Environment, Interface}
use pcp_pmda_cpp.Daemon.Defs.{End, returned, aborted, run_daemon}

-- run_daemon<Agent> on what the virtual run_daemon does to the members `s`; `none` is a failed
-- assertion, which ends the process at once.
unfoldable pub finish {ℓ} :
    {S : Type ℓ}
    → Text
    → Pmda S
    → Result End
    → Pmda S
    → Process S
    → Option (Result Bool × Process S)
unfolding LifeCycle.run_daemon
finish range_what s (ok returned) s' p =
    some (LifeCycle.run_daemon range_what (ok s) (λ _. (ok tt, s')) p)
finish range_what s (ok aborted) s' p = none
finish range_what s (err e) s' p =
    some (LifeCycle.run_daemon range_what (ok s) (λ _. (err e, s')) p)

module _ {ℓ κ} {S : Type ℓ} {A : Type κ} (cfg : Config) (api : Pmapi) (range_what : Text)
    (agent : Agent S A) (pmda_init : Tables → ℕ → ℕ) where
  -- `made` is what the constructor of the agent gives or throws.
  unfoldable pub daemon_main :
      (Text → Bool)
      → Environment
      → Identity
      → (Pmda S → Result (Unit {0}) × Pmda S)
      → List Text
      → Interface
      → Result (Pmda S)
      → Process S
      → Option (Result Bool × Process S)
  unfolding finish run_daemon LifeCycle.run_daemon
  daemon_main can_open env id serve argv interface (ok s) p =
      let ran = run_daemon cfg api can_open env id agent pmda_init serve argv interface s in
      finish range_what s ran.outcome ran.members p
  daemon_main can_open env id serve argv interface (err e) p =
      some (LifeCycle.run_daemon range_what (err e) (λ s. (ok tt, s)) p)

  -- The DSO's interface tells the protocol that the caller understands, and its status.
  unfoldable pub dso_init : ℕ → ℤ → Result (Pmda S) → Process S → Result (Unit {0}) × Process S
  unfolding init_dso initialize_dso
  dso_init understood status made p =
      init_dso range_what made (initialize_dso cfg api agent understood status pmda_init) p
