-- ===== src/Simple/BeginFetch.antt =====
-- What begin_fetch_values of example/simple/simple.cpp leaves, with a cache that takes what it is
-- given.
use pcp_pmda_cpp.Base.{ℕ, ◌+◌, ◌%◌, ◌^◌, ◌≡◌, ◌≢◌, refl, ap, ◌∙◌, arith, Text, Option}
use pcp_pmda_cpp.Base.Int.{ℤ, eq_ℤ_refl}
use pcp_pmda_cpp.Pcp.{Pmapi}
use pcp_pmda_cpp.Exception.{ok}
use pcp_pmda_cpp.Atom.Defs.{Floats}
use pcp_pmda_cpp.Cache.Defs.{CacheLibrary}
use pcp_pmda_cpp.Pmda.State.{Pmda}
use pcp_pmda_cpp.Simple.TimeNow.{
  Os, StatResult, failed, found, State, timenow_check, timenow_refresh, begin_fetch_values,
}
use pcp_pmda_cpp.Simple.CacheEffects.{op_done}
use pcp_pmda_cpp.Simple.TimeSlices.{Accepts, bind-ok}
use pcp_pmda_cpp.Simple.Configured.{change_after, cache_after, check_stat-Checked}

module _ {ℓ} {C : Type ℓ} (fl : Floats) (api : Pmapi) (lib : CacheLibrary C) (now_domain : ℕ)
    (slice : ℕ → ℕ) (accepts : Accepts lib) where
  -- The state when begin_fetch_values has returned.
  pub record Begun (os : Os) (s s' : Pmda (State fl C)) : Type ℓ where
    pub simple_is : s'.agent.0 ≡ record s.agent.0 { numfetch = (s.agent.0.numfetch + 1) % 2 ^ 32 }
    pub indom_is : (s'.heap now_domain).pm_instance_domain ≡ (s.heap now_domain).pm_instance_domain
    pub cache_is :
        s'.agent.1.cache
        ≡ cache_after api lib slice os.stat os.config s.agent.1.file_change
            (s.heap now_domain).pm_instance_domain
            s.agent.1.cache
    pub change_is : s'.agent.1.file_change ≡ change_after os.stat s.agent.1.file_change
    pub sec_is : s'.agent.1.tm_field (slice 0) ≡ os.tm_sec
    pub min_is : s'.agent.1.tm_field (slice 1) ≡ os.tm_min
    pub hour_is : s'.agent.1.tm_field (slice 2) ≡ os.tm_hour

  -- With a cache whose operations do not fail, begin_fetch_values returns, whatever stat and the
  -- file say. It adds one to numfetch, modulo 2 ^ 32, and leaves the colour alone. The cache is
  -- left alone where the file has the time that it had; where it has another, or cannot be
  -- found, all entries become inactive, and then, where it was found and its first line could be
  -- read, the time slices that the line names are stored, in its order. The three time slices get
  -- the seconds, the minutes and the hours.
  pub begin_fetch_values-Begun :
      slice 0 ≢ slice 1
      → slice 0 ≢ slice 2
      → slice 1 ≢ slice 2
      → (os : Os) (s : Pmda (State fl C))
      → (s' : Pmda (State fl C)) × (begin_fetch_values fl api lib now_domain slice os s
          ≡ (ok tt, s'))
        × Begun os s s'
  unfolding begin_fetch_values timenow_check timenow_refresh
  begin_fetch_values-Begun d01 d02 d12 os s =
      let counted : Pmda (State fl C) = record s {
        agent = (record s.agent.0 { numfetch = (s.agent.0.numfetch + 1) % 2 ^ 32 }, s.agent.1);
      } in
      let (t, run, checked) =
        check_stat-Checked fl api lib now_domain slice accepts os os.stat counted in
      (
        (timenow_refresh fl api lib now_domain slice os t).1,
        bind-ok fl api lib now_domain slice accepts (timenow_check fl api lib now_domain slice os)
            (λ _. timenow_refresh fl api lib now_domain slice os) counted run,
        record {
          simple_is = checked.simple_is;
          indom_is = checked.indom_is;
          cache_is = checked.cache_is;
          change_is = checked.change_is;
          sec_is = ground (arith, d01, d02);
          min_is = ground (arith, d12);
          hour_is = ground arith;
        },
      )

  cache_after-same :
      (st : StatResult) (change change' : ℤ × ℤ) (config : Option Text) (d : ℕ) (c : C)
      → st ≡ found change
      → change' ≡ change
      → cache_after api lib slice st config change' d c ≡ c
  cache_after-same st change change' config d c e f =
      rw (e, f, eq_ℤ_refl change.0, eq_ℤ_refl change.1) refl

  -- Where the file cannot be found, and is then found again with the time that it had before, the
  -- two calls of begin_fetch_values return, but the entries of the cache stay as they became when
  -- they were made inactive: the names in the file are not stored again, whatever they are.
  pub begin_fetch_values-restored :
      slice 0 ≢ slice 1
      → slice 0 ≢ slice 2
      → slice 1 ≢ slice 2
      → (gone back : Os) (error : ℤ) (s : Pmda (State fl C)) → gone.stat ≡ failed error
      → back.stat ≡ found s.agent.1.file_change
      → (t u : Pmda (State fl C)) × (begin_fetch_values fl api lib now_domain slice gone s
          ≡ (ok tt, t))
        × (begin_fetch_values fl api lib now_domain slice back t ≡ (ok tt, u))
        × (u.agent.1.cache
            ≡ op_done api lib slice api.cache_inactive
                (s.heap now_domain).pm_instance_domain
                s.agent.1.cache)
  begin_fetch_values-restored d01 d02 d12 gone back error s is_gone is_back =
      let (t, run, b) = begin_fetch_values-Begun d01 d02 d12 gone s in
      let (u, run', b') = begin_fetch_values-Begun d01 d02 d12 back t in
      let change : t.agent.1.file_change ≡ s.agent.1.file_change =
        b.change_is ∙ ap (λ st. change_after st s.agent.1.file_change) is_gone in
      (
        t,
        u,
        run,
        run',
        b'.cache_is
            ∙ cache_after-same back.stat s.agent.1.file_change t.agent.1.file_change back.config
                (t.heap now_domain).pm_instance_domain t.agent.1.cache is_back change
            ∙ b.cache_is
            ∙ ap
                (λ st.
                  cache_after api lib slice st gone.config s.agent.1.file_change
                    (s.heap now_domain).pm_instance_domain s.agent.1.cache)
                is_gone,
      )
