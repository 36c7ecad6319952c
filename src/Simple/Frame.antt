-- ===== src/Simple/Frame.antt =====
-- What begin_fetch_values of example/simple/simple.cpp leaves alone, whatever the cache does.
use pcp_pmda_cpp.Base.{
  ℕ, ◌+◌, ◌%◌, ◌^◌, Bool-cases, inl, inr, ◌&&◌, Text, List, [], ◌∷◌, Option, none, some, is_empty,
}
use pcp_pmda_cpp.Base.Int.{ℤ, pos, eq_ℤ, ltb_ℤ}
use pcp_pmda_cpp.Base.Streams.{getlines, split_at}
use pcp_pmda_cpp.Pcp.{Pmapi}
use pcp_pmda_cpp.Exception.{Result}
use pcp_pmda_cpp.InstanceDomain.{call_name}
use pcp_pmda_cpp.Atom.Defs.{Floats}
use pcp_pmda_cpp.Cache.Defs.{CacheLibrary, perform, store_opaque}
use pcp_pmda_cpp.Pmda.State.{Pmda, LogEntry, notify, ◌>>=◌, ◌>>◌}
use pcp_pmda_cpp.Pmda.Init.{at_pointer}
use pcp_pmda_cpp.Pmda.Preserves.{Preserves, Preserves-bind, Preserves-reads, Preserves-if}
use pcp_pmda_cpp.Simple.TimeNow.{
  Os, StatResult, failed, found, TimeNow, State, log, on_cache, set_timenow, slice_index,
  timeslices, timenow_clear, add_instance, store_slice, store_name, store_names, warn_if_empty,
  check_size, read_lines, read_config, timenow_init, stat_failed, stat_found, check_stat,
  timenow_check, timenow_refresh, begin_fetch_values,
}

-- A property that does not depend on the log, the cache, the time slices or the instances of
-- now_domain.
pub record IsStable {ℓ μ} {C : Type ℓ} (fl : Floats) (now_domain : ℕ)
    (P : Pmda (State fl C) → Type μ) : Type (ℓ ⊔ μ) where
  pub log_stable : (e : LogEntry) (s : Pmda (State fl C)) → P s → P (notify e s)
  pub timenow_stable :
      (t : TimeNow C) (s : Pmda (State fl C)) → P s → P (record s { agent = (s.agent.0, t) })
  pub heap_stable :
      (n : Text) (i : ℕ) (s : Pmda (State fl C))
      → P s
      → P (record s { heap = at_pointer now_domain (call_name i n [] []) s.heap })
  pub numfetch_stable :
      (n : ℕ) (s : Pmda (State fl C))
      → P s
      → P (record s { agent = (record s.agent.0 { numfetch = n }, s.agent.1) })

module _ {ℓ μ} {C : Type ℓ} (fl : Floats) (api : Pmapi) (lib : CacheLibrary C) (now_domain : ℕ)
    (slice : ℕ → ℕ) (P : Pmda (State fl C) → Type μ) (stable : IsStable fl now_domain P) where
  log-Preserves : (e : LogEntry) → Preserves P (log e)
  unfolding Preserves
  log-Preserves e s p = stable.log_stable e s p

  on_cache-Preserves {κ} :
      {A : Type κ} (f : Pmda (State fl C) → C → Result A × C) → Preserves P (λ s. on_cache (f s) s)
  unfolding Preserves
  on_cache-Preserves f s p = stable.timenow_stable _ s p

  set_timenow-Preserves : (f : TimeNow C → TimeNow C) → Preserves P (set_timenow f)
  unfolding Preserves
  set_timenow-Preserves f s p = stable.timenow_stable (f s.agent.1) s p

  pure-Preserves {κ} : {A : Type κ} (r : Result A) → Preserves P (λ s. (r, s))
  pure-Preserves r = Preserves-reads P (λ s. r)

  timenow_clear-Preserves : Preserves P (timenow_clear fl api lib now_domain slice)
  unfolding timenow_clear
  timenow_clear-Preserves =
      on_cache-Preserves
        (λ s. perform api lib (s.heap now_domain).pm_instance_domain api.cache_inactive)

  add_instance-Preserves :
      (n : Text) (i : ℕ) → Preserves P (add_instance fl api lib now_domain slice n i)
  unfolding add_instance Preserves
  add_instance-Preserves n i s p = stable.heap_stable n i s p

  store_slice-Preserves :
      (n : Text) (i : Option ℕ) → Preserves P (store_slice fl api lib now_domain slice n i)
  unfolding store_slice
  store_slice-Preserves n none = log-Preserves _
  store_slice-Preserves n (some i) =
      Preserves-bind P _ _
        (on_cache-Preserves (λ s.
          store_opaque api lib (s.heap now_domain).pm_instance_domain n (slice i) api.cache_add))
        (add_instance-Preserves n)

  store_names-Preserves :
      (ns : List Text) → Preserves P (store_names fl api lib now_domain slice ns)
  unfolding store_names store_name
  store_names-Preserves [] = pure-Preserves _
  store_names-Preserves (n ∷ ns) =
      let rest = store_names-Preserves ns in
      Preserves-if P (is_empty n) _ _ rest
        (Preserves-bind P _ _ (store_slice-Preserves n (slice_index n 0 timeslices)) (λ _. rest))

  warn_if_empty-Preserves :
      (size : ℤ) → Preserves P (warn_if_empty fl api lib now_domain slice size)
  unfolding warn_if_empty
  warn_if_empty-Preserves size =
      Preserves-if P (ltb_ℤ size (pos 1)) _ _ (log-Preserves _) (pure-Preserves _)

  check_size-Preserves : Preserves P (check_size fl api lib now_domain slice)
  unfolding check_size
  check_size-Preserves =
      Preserves-bind P _ _
        (on_cache-Preserves
          (λ s. perform api lib (s.heap now_domain).pm_instance_domain api.cache_size_active))
        warn_if_empty-Preserves

  read_lines-Preserves :
      (lines : List Text) → Preserves P (read_lines fl api lib now_domain slice lines)
  unfolding read_lines
  read_lines-Preserves [] = log-Preserves _
  read_lines-Preserves (line ∷ _) =
      Preserves-bind P _ _ (store_names-Preserves (split_at b',' line)) (λ _. check_size-Preserves)

  read_config-Preserves :
      (config : Option Text) → Preserves P (read_config fl api lib now_domain slice config)
  unfolding read_config
  read_config-Preserves none = log-Preserves _
  read_config-Preserves (some text) = read_lines-Preserves (getlines text)

  timenow_init-Preserves : (os : Os) → Preserves P (timenow_init fl api lib now_domain slice os)
  unfolding timenow_init
  timenow_init-Preserves os = read_config-Preserves os.config

  stat_failed-Preserves :
      (os : Os) (error : ℤ) → Preserves P (stat_failed fl api lib now_domain slice os error)
  unfolding stat_failed Preserves
  stat_failed-Preserves os error s p = elim (Bool-cases (eq_ℤ error s.agent.1.last_error)) [
    | inl e ↦ rw e p
    | inr e ↦ rw e (stable.log_stable _ _ (stable.timenow_stable _ s p))
  ]

  stat_found-Preserves :
      (os : Os) (mtim : ℤ × ℤ) → Preserves P (stat_found fl api lib now_domain slice os mtim)
  unfolding stat_found Preserves
  stat_found-Preserves os mtim s p =
      elim (Bool-cases
        (eq_ℤ mtim.0 s.agent.1.file_change.0 && eq_ℤ mtim.1 s.agent.1.file_change.1)) [
          | inl e ↦ rw e p
          | inr e ↦ rw e (reread s p)
        ]
    where
      reread : Preserves P (
          (timenow_clear fl api lib now_domain slice >>= λ _.
          timenow_init fl api lib now_domain slice os)
          >> set_timenow (λ t. record t { file_change = mtim }))
      reread =
          Preserves-bind P
            (timenow_clear fl api lib now_domain slice >>= λ _.
              timenow_init fl api lib now_domain slice os)
            (λ _. set_timenow (λ t. record t { file_change = mtim }))
            (Preserves-bind P (timenow_clear fl api lib now_domain slice)
              (λ _. timenow_init fl api lib now_domain slice os) timenow_clear-Preserves
              (λ _. timenow_init-Preserves os))
            (λ _. set_timenow-Preserves (λ t. record t { file_change = mtim }))

  check_stat-Preserves :
      (os : Os) (st : StatResult) → Preserves P (check_stat fl api lib now_domain slice os st)
  unfolding check_stat
  check_stat-Preserves os (failed error) =
      Preserves-bind P _ _ (stat_failed-Preserves os error)
        (λ _. Preserves-bind P _ _ timenow_clear-Preserves (λ _. pure-Preserves _))
  check_stat-Preserves os (found mtim) =
      Preserves-bind P _ _ (set_timenow-Preserves _) (λ _. stat_found-Preserves os mtim)

  timenow_refresh-Preserves :
      (os : Os) → Preserves P (timenow_refresh fl api lib now_domain slice os)
  unfolding timenow_refresh Preserves
  timenow_refresh-Preserves os s p = stable.timenow_stable _ s p

  timenow-Preserves :
      (os : Os)
      → Preserves P (
          timenow_check fl api lib now_domain slice os
          >> timenow_refresh fl api lib now_domain slice os)
  unfolding timenow_check
  timenow-Preserves os =
      Preserves-bind P _ (λ _. timenow_refresh fl api lib now_domain slice os)
        (check_stat-Preserves os os.stat) (λ _. timenow_refresh-Preserves os)

  -- Whether it returns or throws.
  pub begin_fetch_values-Preserves :
      (os : Os) → Preserves P (begin_fetch_values fl api lib now_domain slice os)
  unfolding begin_fetch_values timenow_check timenow_refresh Preserves
  begin_fetch_values-Preserves os s p =
      timenow-Preserves os _ (stable.numfetch_stable ((s.agent.0.numfetch + 1) % 2 ^ 32) s p)
