-- ===== src/Pmda/LifeCycle.antt =====
-- The static functions init_dso and run_daemon of pmda (include/pcp-cpp/pmda.hpp), the single
-- instance that they keep, its destructor, and initialize_dso.
use pcp_pmda_cpp.Base.{
  ℕ, Bool, true, false, ltb, if◌then◌else◌, Text, codes, decimal, List, [], ◌∷◌, ◌++◌, Option, none,
  some,
}
use pcp_pmda_cpp.Base.Int.{ℤ, is_neg}
use pcp_pmda_cpp.Pcp.{Pmapi}
use pcp_pmda_cpp.Exception.{Result, ok, err, Thrown, pcp, out_of_range, std, unknown, exception}
use pcp_pmda_cpp.Pmda.State.{Config, Pmda, Method, Agent, LogEntry, entry, log_err, notify}
use pcp_pmda_cpp.Pmda.Init.{Tables, initialize_pmda}

-- pmda::instance, with what has been given to free() and, while there is no instance, the log; both
-- the latest first.
pub record Process {ℓ} (S : Type ℓ) : Type ℓ where
  pub instance_ : Option (Pmda S)
  pub freed : List Text
  pub process_log : List LogEntry

-- The loop of ~pmda: the top of the stack is freed and popped.
unfoldable pub free_stack : List Text → List Text → List Text
free_stack [] freed = freed
free_stack (t ∷ ts) freed = free_stack ts (t ∷ freed)

-- `catch (const std::exception &)`: the text of what was caught; `range_what` is the library's
-- text for std::out_of_range.
abbrev pub caught_what : Text → Thrown → Option Text
caught_what range_what (pcp ex) = some ex.message
caught_what range_what out_of_range = some range_what
caught_what range_what (std what) = some what
caught_what range_what unknown = none

module _ {ℓ} {S : Type ℓ} where
  -- pmNotifyErr outside the instance's methods.
  unfoldable pub notify_process : LogEntry → Process S → Process S
  unfolding notify
  notify_process e p = elim p.instance_ [
    | none ↦ record p { process_log = e ∷ p.process_log }
    | some s ↦ record p { instance_ = some (notify e s) }
  ]

  -- get_instance and set_instance, which returns the instance before.
  unfoldable pub get_instance : Process S → Option (Pmda S)
  get_instance p = p.instance_

  unfoldable pub set_instance : Option (Pmda S) → Process S → Option (Pmda S) × Process S
  set_instance new p = (p.instance_, record p { instance_ = new })

  -- `delete`; what the instance has logged stays.
  unfoldable pub destroy : Option (Pmda S) → Process S → Process S
  unfolding free_stack
  destroy none p = p
  destroy (some s) p = record p {
    freed = free_stack s.free_on_destruction p.freed;
    process_log = s.log ++ p.process_log;
  }

  -- `delete set_instance(NULL)`
  unfoldable pub delete_instance : Process S → Process S
  unfolding set_instance destroy
  delete_instance p = let (old, p') = set_instance none p in destroy old p'

  -- The handler of run_daemon, and the exit status as whether it is EXIT_SUCCESS.
  unfoldable pub daemon_failed : Text → Thrown → Process S → Result Bool × Process S
  unfolding notify_process delete_instance
  daemon_failed range_what e p = elim (caught_what range_what e) [
    | some what ↦ (ok false, delete_instance (notify_process (entry log_err what) p))
    | none ↦ (err e, p)
  ]

  unfoldable pub daemon_ran :
      Text → Result (Unit {0}) × Pmda S → Process S → Result Bool × Process S
  unfolding daemon_failed delete_instance
  daemon_ran range_what (ok _, s) p = (ok true, delete_instance (record p { instance_ = some s }))
  daemon_ran range_what (err e, s) p = daemon_failed range_what e (record p { instance_ = some s })

  -- run_daemon<Agent>: `new_agent` is what the constructor gives or throws, and `run` the virtual
  -- run_daemon.
  unfoldable pub run_daemon :
      Text → Result (Pmda S) → Method S (Unit {0}) → Process S → Result Bool × Process S
  unfolding daemon_failed daemon_ran set_instance
  run_daemon range_what (err e) run p = daemon_failed range_what e p
  run_daemon range_what (ok s) run p = daemon_ran range_what (run s) (set_instance (some s) p).1

  -- initialize_dso: pmdaDSO leaves the protocol that the caller understands, and a status.
  unfoldable pub initialize_dso {κ} :
      {A : Type κ}
      → Config
      → Pmapi
      → Agent S A
      → ℕ
      → ℤ
      → (Tables → ℕ → ℕ)
      → Method S (Option Tables)
  unfolding initialize_pmda
  initialize_dso cfg api agent understood status pmda_init s =
      if ltb understood cfg.interface_version
      then (
        err (
            pcp (
              exception api api.err_generic (
                codes "This DSO uses protocol "
                ++ decimal cfg.interface_version
                ++ codes " but the caller only understands "
                ++ decimal understood
                ++ codes " or less"))),
        s,
      )
      else if is_neg status
      then (err (pcp (exception api status (codes "Failed to initialize DSO via pmdaDSO"))), s)
      else initialize_pmda api agent pmda_init s

  unfoldable pub dso_ran {κ} :
      {A : Type κ} → Text → Result A × Pmda S → Process S → Result (Unit {0}) × Process S
  unfolding notify_process
  dso_ran range_what (ok _, s) p = (ok tt, record p { instance_ = some s })
  dso_ran range_what (err e, s) p = elim (caught_what range_what e) [
    | some what ↦ (ok tt, notify_process (entry log_err what) (record p { instance_ = some s }))
    | none ↦ (err e, record p { instance_ = some s })
  ]

  -- init_dso<Agent>, where `initialize` is initialize_dso on the interface.
  unfoldable pub init_dso {κ} :
      {A : Type κ} → Text → Result (Pmda S) → Method S A → Process S → Result (Unit {0}) × Process S
  unfolding dso_ran set_instance notify_process
  init_dso range_what (err e) initialize p = elim (caught_what range_what e) [
    | some what ↦ (ok tt, notify_process (entry log_err what) p)
    | none ↦ (err e, p)
  ]
  init_dso range_what (ok s) initialize p =
      dso_ran range_what (initialize s) (set_instance (some s) p).1
