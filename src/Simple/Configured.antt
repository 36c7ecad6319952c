-- ===== src/Simple/Configured.antt =====
-- What begin_fetch_values of example/simple/simple.cpp does, with a cache that takes what it is
-- given.
use pcp_pmda_cpp.Base.{ℕ, ◌&&◌, ◌≡◌, refl, Bool, Bool-cases, inl, inr, if◌then◌else◌, Text, Option}
use pcp_pmda_cpp.Base.Int.{ℤ, pos, eq_ℤ}
use pcp_pmda_cpp.Pcp.{Pmapi}
use pcp_pmda_cpp.Exception.{ok}
use pcp_pmda_cpp.Atom.Defs.{Floats}
use pcp_pmda_cpp.Cache.Defs.{CacheLibrary}
use pcp_pmda_cpp.Pmda.State.{Pmda, ◌>>=◌, pure, notify}
use pcp_pmda_cpp.Simple.TimeNow.{
  Os, StatResult, failed, found, State, timenow_clear, timenow_init, stat_failed, stat_found,
  check_stat, set_timenow,
}
use pcp_pmda_cpp.Simple.CacheEffects.{op_done, names_in, initialized}
use pcp_pmda_cpp.Simple.TimeSlices.{
  Accepts, Gives, bind-ok, Gives-bind, perform-Gives, pure-Gives, read_config-Gives,
}

-- Whether two times of the file are the same.
abbrev pub same_time : ℤ × ℤ → ℤ × ℤ → Bool
same_time a b = eq_ℤ a.0 b.0 && eq_ℤ a.1 b.1

abbrev pub change_after : StatResult → ℤ × ℤ → ℤ × ℤ
change_after (failed error) change = change
change_after (found mtim) change = if same_time mtim change then change else mtim

-- What begin_fetch_values makes of the cache.
abbrev pub cache_after {ℓ} :
    {C : Type ℓ} → Pmapi → CacheLibrary C → (ℕ → ℕ) → StatResult → Option Text → ℤ × ℤ → ℕ → C → C
cache_after api lib slice (failed error) config change d c =
    op_done api lib slice api.cache_inactive d c
cache_after api lib slice (found mtim) config change d c =
    if same_time mtim change
    then c
    else initialized api lib slice (names_in config) d
        (op_done api lib slice api.cache_inactive d c)

module _ {ℓ} {C : Type ℓ} (fl : Floats) (api : Pmapi) (lib : CacheLibrary C) (now_domain : ℕ)
    (slice : ℕ → ℕ) (accepts : Accepts lib) where
  pub record Checked (st : StatResult) (config : Option Text) (s s' : Pmda (State fl C))
      : Type ℓ where
    pub simple_is : s'.agent.0 ≡ s.agent.0
    pub indom_is : (s'.heap now_domain).pm_instance_domain ≡ (s.heap now_domain).pm_instance_domain
    pub cache_is :
        s'.agent.1.cache
        ≡ cache_after api lib slice st config s.agent.1.file_change
            (s.heap now_domain).pm_instance_domain
            s.agent.1.cache
    pub change_is : s'.agent.1.file_change ≡ change_after st s.agent.1.file_change

  clear-Gives :
      Gives fl api lib now_domain slice accepts
        (timenow_clear fl api lib now_domain slice)
        (op_done api lib slice api.cache_inactive)
  unfolding timenow_clear
  clear-Gives = perform-Gives fl api lib now_domain slice accepts api.cache_inactive

  init-Gives :
      (os : Os)
      → Gives fl api lib now_domain slice accepts
          (timenow_init fl api lib now_domain slice os)
          (initialized api lib slice (names_in os.config))
  unfolding timenow_init
  init-Gives os = read_config-Gives fl api lib now_domain slice accepts os.config

  reread-Gives :
      (os : Os)
      → Gives fl api lib now_domain slice accepts
          (timenow_clear fl api lib now_domain slice >>= λ _.
            timenow_init fl api lib now_domain slice os)
          (λ d c.
            initialized api lib slice
              (names_in os.config)
              d
              (op_done api lib slice api.cache_inactive d c))
  reread-Gives os =
      Gives-bind fl api lib now_domain slice accepts (timenow_clear fl api lib now_domain slice)
        (λ _. timenow_init fl api lib now_domain slice os)
        (op_done api lib slice api.cache_inactive) (initialized api lib slice (names_in os.config))
        clear-Gives (λ _. init-Gives os)

  abbrev with_change : ℤ × ℤ → Pmda (State fl C) → Pmda (State fl C)
  with_change mtim s = record s { agent = (s.agent.0, record s.agent.1 { file_change = mtim }) }

  stat_found-Checked :
      (os : Os) (mtim : ℤ × ℤ) (s : Pmda (State fl C))
      → (s' : Pmda (State fl C)) × (stat_found fl api lib now_domain slice os mtim s ≡ (ok tt, s'))
        × Checked (found mtim) os.config s s'
  unfolding stat_found
  stat_found-Checked os mtim s = elim (Bool-cases (same_time mtim s.agent.1.file_change)) [
    | inl e ↦ (
      s,
      rw (stat_found, e) refl,
      record { simple_is = refl; indom_is = refl; cache_is = rw e refl; change_is = rw e refl },
    )
    | inr e ↦
        let (_, t, run, keeps, cache) = reread-Gives os s in
        (
          with_change mtim t,
          rw (stat_found, e)
              (bind-ok fl api lib now_domain slice accepts
                (timenow_clear fl api lib now_domain slice >>= λ _.
                  timenow_init fl api lib now_domain slice os)
                (λ _. set_timenow (λ t. record t { file_change = mtim })) s run),
          record {
            simple_is = keeps.simple_is;
            indom_is = keeps.indom_is;
            cache_is = rw e cache;
            change_is = rw e refl;
          },
        )
  ]

  stat_failed-Gives :
      (os : Os) (error : ℤ)
      → Gives fl api lib now_domain slice accepts
          (stat_failed fl api lib now_domain slice os error)
          (λ d c. c)
  unfolding stat_failed notify
  stat_failed-Gives os error s = elim (Bool-cases (eq_ℤ error s.agent.1.last_error)) [
    | inl e ↦
        rw e (tt, s, refl, record { simple_is = refl; indom_is = refl; change_is = refl }, refl)
    | inr e ↦
        rw e (tt, _, refl, record { simple_is = refl; indom_is = refl; change_is = refl }, refl)
  ]

  failed-Gives :
      (os : Os) (error : ℤ)
      → Gives fl api lib now_domain slice accepts
          (check_stat fl api lib now_domain slice os (failed error))
          (op_done api lib slice api.cache_inactive)
  unfolding check_stat
  failed-Gives os error =
      Gives-bind fl api lib now_domain slice accepts
        (stat_failed fl api lib now_domain slice os error)
        (λ _. timenow_clear fl api lib now_domain slice >>= λ _. pure tt) (λ d c. c)
        (op_done api lib slice api.cache_inactive) (stat_failed-Gives os error)
        (λ _.
          Gives-bind fl api lib now_domain slice accepts (timenow_clear fl api lib now_domain slice)
            (λ _. pure tt) (op_done api lib slice api.cache_inactive) (λ d c. c) clear-Gives
            (λ _. pure-Gives fl api lib now_domain slice accepts))

  pub check_stat-Checked :
      (os : Os) (st : StatResult) (s : Pmda (State fl C))
      → (s' : Pmda (State fl C)) × (check_stat fl api lib now_domain slice os st s ≡ (ok tt, s'))
        × Checked st os.config s s'
  unfolding check_stat
  check_stat-Checked os (failed error) s =
      let (_, t, run, keeps, cache) = failed-Gives os error s in
      (
        t,
        run,
        record {
          simple_is = keeps.simple_is;
          indom_is = keeps.indom_is;
          cache_is = cache;
          change_is = keeps.change_is;
        },
      )
  check_stat-Checked os (found mtim) s =
      let (t, run, checked) =
        stat_found-Checked os mtim
          (record s { agent = (s.agent.0, record s.agent.1 { last_error = pos 0 }) }) in
      (
        t,
        run,
        record {
          simple_is = checked.simple_is;
          indom_is = checked.indom_is;
          cache_is = checked.cache_is;
          change_is = checked.change_is;
        },
      )
