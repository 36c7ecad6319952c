-- ===== src/Pmda/Exit.antt =====
-- How pmda::run_daemon ends (include/pcp-cpp/pmda.hpp).
use pcp_pmda_cpp.Base.{
  Bool, true, false, ◌≡◌, ◌≢◌, refl, ◌∙◌, sym, subst, some, Text, List, [], ◌∷◌, ◌++◌, none,
}
use mathlib.Core.List.{reverse, reverse_aux, reverse_aux-eq}
use pcp_pmda_cpp.Exception.{Result, ok, err, pcp, out_of_range, std, unknown}
use pcp_pmda_cpp.Pmda.State.{Pmda, Method, notify}
use pcp_pmda_cpp.Pmda.LifeCycle.{
  Process, free_stack, destroy, delete_instance, notify_process, daemon_failed, daemon_ran,
  run_daemon, set_instance,
}

free_stack-reverse : (ts freed : List Text) → free_stack ts freed ≡ reverse ts ++ freed
unfolding free_stack
free_stack-reverse ts freed = free_stack-aux ts freed ∙ reverse_aux-eq ts freed
  where
    free_stack-aux : (ts freed : List Text) → free_stack ts freed ≡ reverse_aux ts freed
    free_stack-aux [] freed = refl
    free_stack-aux (t ∷ ts) freed = free_stack-aux ts (t ∷ freed)

abbrev pub is_ok {ℓ} : {A : Type ℓ} → Result A → Bool
is_ok (ok _) = true
is_ok (err _) = false

-- A process in which the agent with the members `s` has been deleted.
pub IsDeleted {ℓ} : {S : Type ℓ} → Pmda S → Process S → Process S → Type ℓ
IsDeleted s p p' = (p'.instance_ ≡ none) × (p'.freed ≡ reverse s.free_on_destruction ++ p.freed)

module _ {ℓ} {S : Type ℓ} (range_what : Text) where
  daemon_ran-IsDeleted :
      (r : Result (Unit {0})) (s : Pmda S) (p : Process S)
      → r ≢ err unknown
      → ((daemon_ran range_what (r, s) p).0 ≡ ok (is_ok r))
        × IsDeleted s p (daemon_ran range_what (r, s) p).1
  unfolding daemon_ran daemon_failed delete_instance destroy notify_process IsDeleted set_instance
      notify
  daemon_ran-IsDeleted (ok _) s p h =
      (refl, (refl, free_stack-reverse s.free_on_destruction p.freed))
  daemon_ran-IsDeleted (err (pcp ex)) s p h =
      (refl, (refl, free_stack-reverse s.free_on_destruction p.freed))
  daemon_ran-IsDeleted (err out_of_range) s p h =
      (refl, (refl, free_stack-reverse s.free_on_destruction p.freed))
  daemon_ran-IsDeleted (err (std what)) s p h =
      (refl, (refl, free_stack-reverse s.free_on_destruction p.freed))
  daemon_ran-IsDeleted (err unknown) s p h = absurd (h refl)

  -- When the agent's run ends, with a result or with a standard exception, run_daemon returns
  -- EXIT_SUCCESS exactly after a result, leaves no instance, and has freed every text that the
  -- agent had kept for that, once each, the last one kept first.
  pub run_daemon-IsDeleted :
      (s s' : Pmda S) (run : Method S (Unit {0})) (r : Result (Unit {0})) (p : Process S)
      → run s ≡ (r, s')
      → r ≢ err unknown
      → ((run_daemon range_what (ok s) run p).0 ≡ ok (is_ok r))
        × IsDeleted s' p (run_daemon range_what (ok s) run p).1
  unfolding run_daemon IsDeleted set_instance
  run_daemon-IsDeleted s s' run r p e h =
      subst
        (λ x.
          ((daemon_ran range_what x started).0 ≡ ok (is_ok r))
          × IsDeleted s' p (daemon_ran range_what x started).1)
        (sym e) (daemon_ran-IsDeleted r s' started h)
    where
      started : Process S
      started = record p { instance_ = some s }
