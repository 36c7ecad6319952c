-- ===== src/Tests/Serving.antt =====
-- The small agent as a daemon that comes to pmdaMain.
use pcp_pmda_cpp.Base.{◌+◌, true, codes, [], ◌∷◌}
use pcp_pmda_cpp.Pcp.{pcp4}
use pcp_pmda_cpp.Exception.{ok}
use pcp_pmda_cpp.CommandLine.Parse.{parse_command_line}
use pcp_pmda_cpp.Daemon.Serves.{Parsed, run_daemon-Parsed}
use pcp_pmda_cpp.Tests.Daemon.{ran}
use pcp_pmda_cpp.Tests.Fixtures.{config, agent, ready}
use pcp_pmda_cpp.Tests.Options.{environment, identity, before}

run_daemon-Parsed_example :
    Parsed config pcp4
      (λ f. true)
      environment
      identity
      agent
      (λ t i. i + 1000)
      (λ s. (ok tt, s))
      (parse_command_line config pcp4
        (λ f. true)
        environment
        identity
        agent
        (codes "shop" ∷ [])
        before
        ready)
      ran
run_daemon-Parsed_example =
    run_daemon-Parsed config pcp4 (λ f. true) environment identity agent (λ t i. i + 1000)
      (λ s. (ok tt, s)) (codes "shop" ∷ []) before ready
