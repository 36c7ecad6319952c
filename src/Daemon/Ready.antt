-- ===== src/Daemon/Ready.antt =====
-- A DSO that its caller understands (include/pcp-cpp/pmda.hpp).
use pcp_pmda_cpp.Base.{ℕ, ◌≤◌, ltb, ◌≡◌, ap, arith, false, Text, some}
use pcp_pmda_cpp.Base.Int.{ℤ, is_neg}
use pcp_pmda_cpp.Pcp.{Pmapi}
use pcp_pmda_cpp.Exception.{ok}
use pcp_pmda_cpp.Pmda.State.{Config, Pmda, Agent}
use pcp_pmda_cpp.Pmda.Init.{Tables, initialize_pmda}
use pcp_pmda_cpp.Pmda.LifeCycle.{Process, set_instance, initialize_dso, dso_ran, init_dso}
use pcp_pmda_cpp.Daemon.Program.{dso_init}

-- Where the caller understands the protocol and pmdaDSO succeeds, the DSO's entry point leaves the
-- members as initialize_pmda does.
pub dso_init-ready {ℓ κ} :
    {S : Type ℓ} {A : Type κ} (cfg : Config) (api : Pmapi) (range_what : Text) (agent : Agent S A)
    (pmda_init : Tables → ℕ → ℕ) (understood : ℕ) (status : ℤ) (s : Pmda S) (p : Process S)
    (t : Tables)
    → cfg.interface_version ≤ understood
    → is_neg status ≡ false
    → (initialize_pmda api agent pmda_init s).0 ≡ ok (some t)
    → dso_init cfg api range_what agent pmda_init understood status (ok s) p
      ≡ (ok tt, record p { instance_ = some ((initialize_pmda api agent pmda_init s).1) })
unfolding dso_init init_dso initialize_dso dso_ran set_instance
dso_init-ready cfg api range_what agent pmda_init understood status s p t v nonneg run =
    let e : ltb understood cfg.interface_version ≡ false = ground arith in
    rw (e, nonneg)
      (ap
        (λ r.
          dso_ran range_what (r, (initialize_pmda api agent pmda_init s).1)
            (record p { instance_ = some s }))
        run)
