-- ===== src/Tests/Daemon.antt =====
-- How a program ends that serves until pmdaMain returns.
use pcp_pmda_cpp.Base.{ℕ, ◌+◌, true, codes, [], ◌∷◌, none}
use pcp_pmda_cpp.Exception.{ok}
use pcp_pmda_cpp.Pcp.{pcp4}
use pcp_pmda_cpp.Pmda.LifeCycle.{Process}
use pcp_pmda_cpp.Daemon.Defs.{Ran, run_daemon}
use pcp_pmda_cpp.Daemon.Program.{daemon_main}
use pcp_pmda_cpp.Daemon.Exits.{Exits, daemon_main-Exits}
use pcp_pmda_cpp.Tests.Fixtures.{config, agent, ready}
use pcp_pmda_cpp.Tests.Options.{environment, identity, before}

abbrev process : Process ℕ
process = record { instance_ = none; freed = []; process_log = [] }

abbrev pub ran : Ran ℕ
ran =
    run_daemon config pcp4 (λ f. true) environment identity agent (λ t i. i + 1000)
      (λ s. (ok tt, s)) (codes "shop" ∷ []) before ready

daemon_main-Exits_example : Exits ran.outcome ran.members process (
    daemon_main config pcp4
      (codes "out_of_range")
      agent
      (λ t i. i + 1000)
      (λ f. true)
      environment
      identity
      (λ s. (ok tt, s))
      (codes "shop" ∷ [])
      before
      (ok ready)
      process)
daemon_main-Exits_example =
    daemon_main-Exits config pcp4 (λ f. true) environment identity agent (λ t i. i + 1000)
      (λ s. (ok tt, s)) (codes "out_of_range") (codes "shop" ∷ []) before ready process
