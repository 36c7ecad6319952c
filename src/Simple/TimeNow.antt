-- ===== src/Simple/TimeNow.antt =====
-- The time slices of example/simple/simple.cpp: begin_fetch_values with timenow_check,
-- timenow_clear, timenow_init and timenow_refresh.
use pcp_pmda_cpp.Base.{
  ℕ, suc, ◌+◌, ◌%◌, ◌^◌, ◌==◌, ◌&&◌, if◌then◌else◌, is_empty, Text, codes, text_eq, List, [], ◌∷◌,
  ◌++◌, Option, none, some,
}
use pcp_pmda_cpp.Base.Int.{ℤ, pos, eq_ℤ, ltb_ℤ}
use pcp_pmda_cpp.Base.Streams.{getlines, split_at}
use pcp_pmda_cpp.Pcp.{Pmapi}
use pcp_pmda_cpp.Exception.{Result, ok}
use pcp_pmda_cpp.InstanceDomain.{call_name}
use pcp_pmda_cpp.Atom.Defs.{Floats}
use pcp_pmda_cpp.Cache.Defs.{CacheLibrary, perform, store_opaque}
use pcp_pmda_cpp.Pmda.State.{
  Method, LogEntry, ◌>>=◌, ◌>>◌, pure, notify, entry, log_err, log_warning,
}
use pcp_pmda_cpp.Pmda.Init.{at_pointer}
use pcp_pmda_cpp.Simple.Defs.{Simple}

-- What the operating system tells: the errno of stat or the modification time, the text of the
-- configuration file where it can be opened, and the seconds, minutes and hours of localtime_r.
-- pmErrStr of an errno is `error_text`.
pub data StatResult : Type 0 where
  failed : ℤ → StatResult
  found : ℤ × ℤ → StatResult

pub record Os : Type 0 where
  pub stat : StatResult
  pub config : Option Text
  pub tm_sec : ℤ
  pub tm_min : ℤ
  pub tm_hour : ℤ
  pub error_text : ℤ → Text

-- The cache, the field tm_field of each time slice, and the variables that are static in
-- timenow_check.
pub record TimeNow {ℓ} (C : Type ℓ) : Type ℓ where
  pub cache : C
  pub tm_field : ℕ → ℤ
  pub last_error : ℤ
  pub file_change : ℤ × ℤ

-- timeslices: the names, in order.
abbrev pub timeslices : List Text
timeslices = codes "sec" ∷ codes "min" ∷ codes "hour" ∷ []

-- The loop that looks for a name, from the index on.
abbrev pub slice_index : Text → ℕ → List Text → Option ℕ
slice_index name index [] = none
slice_index name index (tm_name ∷ later) =
    if text_eq name tm_name then some index else slice_index name (suc index) later

-- The name of the configuration file.
unfoldable pub config_filename : Pmapi → Text
config_filename api =
    api.get_config (codes "PCP_PMDAS_DIR")
    ++ (api.path_separator ∷ [])
    ++ codes "simple"
    ++ (api.path_separator ∷ [])
    ++ codes "simple.conf"

-- The agent's state: the members of simple, and what is above.
abbrev pub State {ℓ} : Floats → Type ℓ → Type ℓ
State fl C = Simple fl × TimeNow C

abbrev pub log {ℓ} : {S : Type ℓ} → LogEntry → Method S (Unit {0})
log e s = (ok tt, notify e s)

module _ {ℓ} {C : Type ℓ} {fl : Floats} where
  -- A call of the cache.
  abbrev pub on_cache {κ} : {A : Type κ} → (C → Result A × C) → Method (State fl C) A
  on_cache f s =
      let (r, c) = f s.agent.1.cache in
      (r, record s { agent = (s.agent.0, record s.agent.1 { cache = c }) })

  abbrev pub set_timenow : (TimeNow C → TimeNow C) → Method (State fl C) (Unit {0})
  set_timenow f s = (ok tt, record s { agent = (s.agent.0, f s.agent.1) })

-- `now_domain` is at an address, and each time slice is.
module _ {ℓ} {C : Type ℓ} (fl : Floats) (api : Pmapi) (lib : CacheLibrary C) (now_domain : ℕ)
    (slice : ℕ → ℕ) where
  unfoldable pub timenow_clear : Method (State fl C) ℤ
  timenow_clear s =
      on_cache (perform api lib (s.heap now_domain).pm_instance_domain api.cache_inactive) s

  -- `now_domain(instance_id, name)`
  unfoldable pub add_instance : Text → ℕ → Method (State fl C) (Unit {0})
  add_instance name instance_id s =
      (ok tt, record s { heap = at_pointer now_domain (call_name instance_id name [] []) s.heap })

  -- What the loop does with a name that is not empty, where its index has been found, or not.
  unfoldable pub store_slice : Text → Option ℕ → Method (State fl C) (Unit {0})
  unfolding add_instance
  store_slice name none =
      log (entry log_warning (codes "ignoring \"" ++ name ++ codes "\" in " ++ config_filename api))
  store_slice name (some index) =
      (λ s.
        on_cache
          (store_opaque api lib (s.heap now_domain).pm_instance_domain name (slice index)
            api.cache_add)
          s)
      >>= add_instance name

  unfoldable pub store_name : Text → Method (State fl C) (Unit {0})
  unfolding store_slice
  store_name name = store_slice name (slice_index name 0 timeslices)

  unfoldable pub store_names : List Text → Method (State fl C) (Unit {0})
  unfolding store_name
  store_names [] = pure tt
  store_names (name ∷ names) =
      let rest = store_names names in if is_empty name then rest else store_name name >> rest

  unfoldable pub warn_if_empty : ℤ → Method (State fl C) (Unit {0})
  warn_if_empty size =
      if ltb_ℤ size (pos 1)
      then log (entry log_warning (codes "\"timenow\" instance domain is empty"))
      else pure tt

  -- The end of timenow_init.
  unfoldable pub check_size : Method (State fl C) (Unit {0})
  unfolding warn_if_empty
  check_size =
      (λ s.
        on_cache (perform api lib (s.heap now_domain).pm_instance_domain api.cache_size_active) s)
      >>= warn_if_empty

  unfoldable pub read_lines : List Text → Method (State fl C) (Unit {0})
  unfolding store_names check_size split_at
  read_lines [] = log (entry log_err (codes "failed to read from " ++ config_filename api))
  read_lines (line ∷ _) = store_names (split_at b',' line) >> check_size

  unfoldable pub read_config : Option Text → Method (State fl C) (Unit {0})
  unfolding read_lines getlines
  read_config none = log (entry log_err (codes "failed to open " ++ config_filename api))
  read_config (some text) = read_lines (getlines text)

  unfoldable pub timenow_init : Os → Method (State fl C) (Unit {0})
  unfolding read_config
  timenow_init os = read_config os.config

  -- An error of stat is logged when it is not the last one.
  unfoldable pub stat_failed : Os → ℤ → Method (State fl C) (Unit {0})
  stat_failed os error s =
      if eq_ℤ error s.agent.1.last_error
      then (ok tt, s)
      else (set_timenow (λ t. record t { last_error = error })
            >> log (
                entry log_err (
                  codes "stat failed on "
                  ++ config_filename api
                  ++ codes ": "
                  ++ os.error_text error
                  ++ codes "\n")))
          s

  -- Where the time of the file is not the one before, its names are read anew.
  unfoldable pub stat_found : Os → ℤ × ℤ → Method (State fl C) (Unit {0})
  unfolding timenow_clear timenow_init
  stat_found os mtim s =
      if eq_ℤ mtim.0 s.agent.1.file_change.0 && eq_ℤ mtim.1 s.agent.1.file_change.1
      then (ok tt, s)
      else ((timenow_clear >>= λ _. timenow_init os)
            >> set_timenow (λ t. record t { file_change = mtim }))
          s

  unfoldable pub check_stat : Os → StatResult → Method (State fl C) (Unit {0})
  unfolding stat_failed stat_found timenow_clear
  check_stat os (failed error) = stat_failed os error >> (timenow_clear >>= λ _. pure tt)
  check_stat os (found mtim) =
      set_timenow (λ t. record t { last_error = pos 0 }) >> stat_found os mtim

  unfoldable pub timenow_check : Os → Method (State fl C) (Unit {0})
  unfolding check_stat
  timenow_check os = check_stat os os.stat

  unfoldable pub timenow_refresh : Os → Method (State fl C) (Unit {0})
  timenow_refresh os = set_timenow (λ t. record t {
    tm_field = λ p.
        if p == slice 2
        then os.tm_hour
        else if p == slice 1
        then os.tm_min
        else if p == slice 0
        then os.tm_sec
        else t.tm_field p;
  })

  unfoldable pub begin_fetch_values : Os → Method (State fl C) (Unit {0})
  unfolding timenow_check timenow_refresh
  begin_fetch_values os s =
      let m = s.agent.0 in
      (timenow_check os >> timenow_refresh os)
        (record s { agent = (record m { numfetch = (m.numfetch + 1) % 2 ^ 32 }, s.agent.1) })
