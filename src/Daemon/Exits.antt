-- ===== src/Daemon/Exits.antt =====
-- How a program whose main is run_daemon<Agent> ends (include/pcp-cpp/pmda.hpp).
use pcp_pmda_cpp.Base.{
  ℕ, ◌≡◌, ◌≢◌, refl, sym, ap, ◌∙◌, arith, Bool, true, false, Text, List, Option, none, some,
}
use pcp_pmda_cpp.Pcp.{Pmapi}
use pcp_pmda_cpp.Exception.{Result, ok, err, pcp, out_of_range, std, unknown}
use pcp_pmda_cpp.Metrics.Defs.{MetricsDescription}
use pcp_pmda_cpp.Pmda.State.{Config, Pmda, Agent}
use pcp_pmda_cpp.Pmda.Init.{Tables, initialize_pmda}
use pcp_pmda_cpp.Pmda.Registered.{initialize_pmda-registers}
use pcp_pmda_cpp.Pmda.LifeCycle
use pcp_pmda_cpp.Pmda.LifeCycle.{Process, daemon_failed, daemon_ran}
use pcp_pmda_cpp.Pmda.Exit.{IsDeleted, is_ok, run_daemon-IsDeleted}
use pcp_pmda_cpp.Export.Files.{Identity}
use pcp_pmda_cpp.CommandLine.Defs.{Environment, Interface}
use pcp_pmda_cpp.CommandLine.Parse.{parse_command_line}
use pcp_pmda_cpp.Daemon.Defs.{
  Call, End, returned, aborted, after_main, after_initialize, after_parse, run_daemon,
}
use pcp_pmda_cpp.Daemon.Program.{finish, daemon_main}

-- How the process ends, by how the virtual run_daemon did, with the members `s` and from the
-- process `p`.
pub Exits :
    {S : Type 0} → Result End → Pmda S → Process S → Option (Result Bool × Process S) → Type 0
Exits {S} (ok returned) s p x = (p' : Process S) × (x ≡ some (ok true, p')) × IsDeleted s p p'
Exits (ok aborted) s p x = ⊥
Exits {S} (err unknown) s p x =
    (p' : Process S) × (x ≡ some (err unknown, p')) × (p'.instance_ ≡ some s)
Exits {S} (err (pcp _)) s p x = (p' : Process S) × (x ≡ some (ok false, p')) × IsDeleted s p p'
Exits {S} (err out_of_range) s p x = (p' : Process S) × (x ≡ some (ok false, p')) × IsDeleted s p p'
Exits {S} (err (std _)) s p x = (p' : Process S) × (x ≡ some (ok false, p')) × IsDeleted s p p'

module _ {S : Type 0} (range_what : Text) (s s' : Pmda S) (p : Process S) where
  run_daemon-pair :
      (r : Result (Unit {0}))
      → r ≢ err unknown
      → (p' : Process S) × (some (LifeCycle.run_daemon range_what (ok s) (λ _. (r, s')) p)
          ≡ some (ok (is_ok r), p'))
        × IsDeleted s' p p'
  run_daemon-pair r h =
      let (code, deleted) = run_daemon-IsDeleted range_what s s' (λ _. (r, s')) r p refl h in
      (
        (LifeCycle.run_daemon range_what (ok s) (λ _. (r, s')) p).1,
        ap (λ c. some (c, (LifeCycle.run_daemon range_what (ok s) (λ _. (r, s')) p).1)) code,
        deleted,
      )

  finish-Exits : (e : Result End) → e ≢ ok aborted → Exits e s' p (finish range_what s e s' p)
  unfolding Exits finish LifeCycle.run_daemon daemon_ran daemon_failed
  finish-Exits (ok returned) h = run_daemon-pair (ok tt) (λ e. ground (arith, e))
  finish-Exits (ok aborted) h = absurd (h refl)
  finish-Exits (err (pcp ex)) h = run_daemon-pair (err (pcp ex)) (λ e. ground (arith, e))
  finish-Exits (err out_of_range) h = run_daemon-pair (err out_of_range) (λ e. ground (arith, e))
  finish-Exits (err (std what)) h = run_daemon-pair (err (std what)) (λ e. ground (arith, e))
  finish-Exits (err unknown) h = (_, refl, refl)

module _ {S A : Type 0} (cfg : Config) (api : Pmapi) (can_open : Text → Bool) (env : Environment)
    (id : Identity) (agent : Agent S A) (pmda_init : Tables → ℕ → ℕ)
    (serve : Pmda S → Result (Unit {0}) × Pmda S) where
  -- No assertion of initialize_pmda fails.
  initialize_pmda-ne : (s : Pmda S) → (initialize_pmda api agent pmda_init s).0 ≢ ok none
  unfolding initialize_pmda
  initialize_pmda-ne s = by_metrics (agent.get_supported_metrics s) refl
    where
      by_metrics :
          (x : Result MetricsDescription × Pmda S)
          → agent.get_supported_metrics s ≡ x
          → (initialize_pmda api agent pmda_init s).0 ≢ ok none
      by_metrics (ok m, s') e h =
          let (t, _, run, _, _, _, _) = initialize_pmda-registers api agent pmda_init s s' m e in
          ground (arith, sym (ap (λ x. x.0) run) ∙ h)
      by_metrics (err x, s') e h = ground (arith, e, h)

  after_main-ne :
      (calls : List Call) (t : Tables) (x : Result (Unit {0}) × Pmda S)
      → (after_main cfg api can_open env id agent pmda_init serve calls t x).outcome ≢ ok aborted
  unfolding after_main
  after_main-ne calls t (ok u, s) e = ground (arith, e)
  after_main-ne calls t (err x, s) e = ground (arith, e)

  after_initialize-ne :
      (i : Interface) (calls : List Call) (x : Result (Option Tables)) (s : Pmda S)
      → x ≢ ok none
      → (after_initialize cfg api can_open env id agent pmda_init serve i calls (x, s)).outcome
        ≢ ok aborted
  unfolding after_initialize
  after_initialize-ne i calls (ok none) s h e = h refl
  after_initialize-ne i calls (ok (some t)) s h e = after_main-ne _ t (serve s) e
  after_initialize-ne i calls (err x) s h e = ground (arith, e)

  after_parse-ne :
      (x : Result (Bool × Interface)) (s : Pmda S)
      → (after_parse cfg api can_open env id agent pmda_init serve (x, s)).outcome ≢ ok aborted
  unfolding after_parse
  after_parse-ne (ok (true, i)) s e = after_initialize-ne i _ _ _ (initialize_pmda-ne s) e
  after_parse-ne (ok (false, i)) s e = ground (arith, e)
  after_parse-ne (err x) s e = ground (arith, e)

  -- Whatever the agent, the command line and the surroundings are, no assertion of the program
  -- fails. Where the virtual run_daemon returns, the exit status is EXIT_SUCCESS, and where it
  -- throws a standard exception, EXIT_FAILURE; both times no instance is left, and every text that
  -- the agent had kept for that has been freed, once each, the last one kept first. Any other
  -- exception passes on, with the instance still there.
  pub daemon_main-Exits :
      (range_what : Text) (argv : List Text) (interface : Interface) (s : Pmda S) (p : Process S)
      → let ran = run_daemon cfg api can_open env id agent pmda_init serve argv interface s in
        Exits ran.outcome ran.members p (
          daemon_main cfg api range_what agent pmda_init can_open env id serve argv interface
            (ok s)
            p)
  unfolding daemon_main run_daemon
  daemon_main-Exits range_what argv interface s p =
      let parsed = parse_command_line cfg api can_open env id agent argv interface s in
      finish-Exits range_what s _ p _ (after_parse-ne parsed.0 parsed.1)
