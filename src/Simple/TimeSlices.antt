-- ===== src/Simple/TimeSlices.antt =====
-- The configuration file of the time slices, with a cache that takes what it is given
-- (example/simple/simple.cpp).
use pcp_pmda_cpp.Base.{
  ℕ, ◌≡◌, refl, ap, ◌∙◌, arith, false, Bool-cases, inl, inr, Text, codes, c_str, List, [], ◌∷◌,
  Option, none, some,
}
use pcp_pmda_cpp.Base.Int.{ℤ, pos, is_neg, ltb_ℤ}
use pcp_pmda_cpp.Base.Streams.{getlines, split_at}
use pcp_pmda_cpp.Pcp.{Pmapi}
use pcp_pmda_cpp.Exception.{Result, ok, err}
use pcp_pmda_cpp.InstanceDomain.{call_name}
use pcp_pmda_cpp.Atom.Defs.{Floats}
use pcp_pmda_cpp.Cache.Defs.{CacheLibrary, perform, store_opaque, thrown_if_neg, to_instance_id}
use pcp_pmda_cpp.Pmda.State.{Pmda, Method, LogEntry, ◌>>=◌, pure, notify, entry, log_warning}
use pcp_pmda_cpp.Pmda.Init.{at_pointer}
use pcp_pmda_cpp.Simple.TimeNow.{
  timeslices, slice_index, State, on_cache, log, add_instance, store_slice, store_name, store_names,
  warn_if_empty, check_size, read_lines, read_config,
}
use pcp_pmda_cpp.Simple.CacheEffects.{
  stored_at, all_stored, op_done, names_of, names_in, initialized,
}

-- No operation fails.
pub record Accepts {ℓ} {C : Type ℓ} (lib : CacheLibrary C) : Type ℓ where
  pub op_nonneg : (d : ℕ) (o : ℤ) (c : C) → is_neg (lib.cache_op d o c).0 ≡ false
  pub store_nonneg :
      (d : ℕ) (f : ℤ) (name : Text) (o : ℕ) (c : C)
      → is_neg (lib.cache_store d f name o c).0 ≡ false

module _ {ℓ} {C : Type ℓ} (fl : Floats) (api : Pmapi) (lib : CacheLibrary C) (now_domain : ℕ)
    (slice : ℕ → ℕ) (accepts : Accepts lib) where
  pub bind-ok :
      {A B : Type 0} (m : Method (State fl C) A) (k : A → Method (State fl C) B)
      (s : Pmda (State fl C)) {s' : Pmda (State fl C)} {a : A}
      → m s ≡ (ok a, s')
      → (m >>= k) s ≡ k a s'
  bind-ok m k s e = ap (λ p. elim p.0 [ ok a ↦ k a p.1 | err x ↦ (err x, p.1) ]) e

  perform-ok :
      (d : ℕ) (o : ℤ) (c : C)
      → perform api lib d o c ≡ (ok (lib.cache_op d o c).0, (lib.cache_op d o c).1)
  unfolding perform thrown_if_neg
  perform-ok d o c = rw (accepts.op_nonneg d o c) refl

  store-ok :
      (d : ℕ) (name : Text) (o : ℕ) (c : C)
      → (id : ℕ) × (store_opaque api lib d name o api.cache_add c
          ≡ (ok id, (lib.cache_store d api.cache_add (c_str name) o c).1))
  unfolding store_opaque thrown_if_neg
  store-ok d name o c = (
    to_instance_id (lib.cache_store d api.cache_add (c_str name) o c).0,
    rw (accepts.store_nonneg d api.cache_add (c_str name) o c) refl,
  )

  abbrev with_cache : C → Pmda (State fl C) → Pmda (State fl C)
  with_cache c s = record s { agent = (s.agent.0, record s.agent.1 { cache = c }) }

  on_cache-perform :
      (o : ℤ) (d : ℕ) (s : Pmda (State fl C))
      → on_cache (perform api lib d o) s ≡ (
        ok (lib.cache_op d o s.agent.1.cache).0,
        with_cache (lib.cache_op d o s.agent.1.cache).1 s,
      )
  on_cache-perform o d s = rw (perform-ok d o s.agent.1.cache) refl

  -- What stays: the members of simple, the identifier of the domain, and the file's time.
  pub record Keeps (s s' : Pmda (State fl C)) : Type ℓ where
    pub simple_is : s'.agent.0 ≡ s.agent.0
    pub indom_is : (s'.heap now_domain).pm_instance_domain ≡ (s.heap now_domain).pm_instance_domain
    pub change_is : s'.agent.1.file_change ≡ s.agent.1.file_change

  Keeps-trans : (s t u : Pmda (State fl C)) → Keeps s t → Keeps t u → Keeps s u
  Keeps-trans s t u a b = record {
    simple_is = b.simple_is ∙ a.simple_is;
    indom_is = b.indom_is ∙ a.indom_is;
    change_is = b.change_is ∙ a.change_is;
  }

  -- A method that returns a result, and does `f` to the cache.
  abbrev pub Gives : {A : Type 0} → Method (State fl C) A → (ℕ → C → C) → Type ℓ
  Gives {A} m f =
      (s : Pmda (State fl C))
      → (a : A) × (s' : Pmda (State fl C)) × (m s ≡ (ok a, s'))
        × Keeps s s'
        × (s'.agent.1.cache ≡ f (s.heap now_domain).pm_instance_domain s.agent.1.cache)

  pub Gives-bind :
      {A B : Type 0} (m : Method (State fl C) A) (k : A → Method (State fl C) B) (f g : ℕ → C → C)
      → Gives m f
      → ((a : A) → Gives (k a) g)
      → Gives (m >>= k) (λ d c. g d (f d c))
  Gives-bind m k f g h i s =
      let (a, t, e, keeps, cache) = h s in
      let (b, u, e', keeps', cache') = i a t in
      (
        b,
        u,
        bind-ok m k s e ∙ e',
        Keeps-trans s t u keeps keeps',
        cache' ∙ rw (keeps.indom_is, cache) refl,
      )

  cache-Gives :
      {A : Type 0} (f : ℕ → C → Result A × C) (g : ℕ → C → C)
      → ((d : ℕ) (c : C) → (a : A) × (f d c ≡ (ok a, g d c)))
      → (s : Pmda (State fl C))
      → (a : A) × (s' : Pmda (State fl C)) × (on_cache (f (s.heap now_domain).pm_instance_domain) s
          ≡ (ok a, s'))
        × Keeps s s'
        × (s'.agent.1.cache ≡ g (s.heap now_domain).pm_instance_domain s.agent.1.cache)
  cache-Gives f g h s =
      let (a, e) = h (s.heap now_domain).pm_instance_domain s.agent.1.cache in
      (
        a,
        with_cache (g (s.heap now_domain).pm_instance_domain s.agent.1.cache) s,
        rw e refl,
        record { simple_is = refl; indom_is = refl; change_is = refl },
        refl,
      )

  pub perform-Gives :
      (o : ℤ)
      → Gives
          (λ s. on_cache (perform api lib (s.heap now_domain).pm_instance_domain o) s)
          (λ d c. (lib.cache_op d o c).1)
  perform-Gives o =
      cache-Gives (λ d. perform api lib d o) _ (λ d c. ((lib.cache_op d o c).0, perform-ok d o c))

  log-Gives : (e : LogEntry) → Gives (log e) (λ d c. c)
  unfolding notify
  log-Gives e s =
      (tt, notify e s, refl, record { simple_is = refl; indom_is = refl; change_is = refl }, refl)

  pub pure-Gives : Gives (pure tt) (λ d c. c)
  pure-Gives s = (tt, s, refl, record { simple_is = refl; indom_is = refl; change_is = refl }, refl)

  add_instance-Gives :
      (name : Text) (id : ℕ) → Gives (add_instance fl api lib now_domain slice name id) (λ d c. c)
  unfolding add_instance call_name
  add_instance-Gives name id s = (
    tt,
    record s { heap = at_pointer now_domain (call_name id name [] []) s.heap },
    refl,
    record { simple_is = refl; indom_is = ground arith; change_is = refl },
    refl,
  )

  store_slice-Gives :
      (name : Text) (o : Option ℕ)
      → Gives
          (store_slice fl api lib now_domain slice name o)
          (λ d. stored_at api lib slice d name o)
  unfolding store_slice
  store_slice-Gives name none = log-Gives _
  store_slice-Gives name (some index) =
      Gives-bind _ (add_instance fl api lib now_domain slice name)
        (λ d. stored_at api lib slice d name (some index)) (λ d c. c)
        (cache-Gives (λ d. store_opaque api lib d name (slice index) api.cache_add) _
          (λ d c. store-ok d name (slice index) c))
        (add_instance-Gives name)

  store_names-Gives :
      (names : List Text)
      → Gives
          (store_names fl api lib now_domain slice names)
          (λ d. all_stored api lib slice d names)
  unfolding store_names store_name
  store_names-Gives [] = pure-Gives
  store_names-Gives ([] ∷ names) = store_names-Gives names
  store_names-Gives ((a ∷ name) ∷ names) =
      Gives-bind
        (store_slice fl api lib now_domain slice (a ∷ name) (slice_index (a ∷ name) 0 timeslices))
        (λ _. store_names fl api lib now_domain slice names)
        (λ d. stored_at api lib slice d (a ∷ name) (slice_index (a ∷ name) 0 timeslices))
        (λ d. all_stored api lib slice d names)
        (store_slice-Gives (a ∷ name) (slice_index (a ∷ name) 0 timeslices))
        (λ _. store_names-Gives names)

  warn_if_empty-Gives :
      (size : ℤ) → Gives (warn_if_empty fl api lib now_domain slice size) (λ d c. c)
  unfolding warn_if_empty
  warn_if_empty-Gives size = elim (Bool-cases (ltb_ℤ size (pos 1))) [
    | inl e ↦ rw e (log-Gives (entry log_warning (codes "\"timenow\" instance domain is empty")))
    | inr e ↦ rw e pure-Gives
  ]

  check_size-Gives :
      Gives (check_size fl api lib now_domain slice) (op_done api lib slice api.cache_size_active)
  unfolding check_size
  check_size-Gives =
      Gives-bind _ (warn_if_empty fl api lib now_domain slice)
        (op_done api lib slice api.cache_size_active) (λ d c. c)
        (perform-Gives api.cache_size_active) warn_if_empty-Gives

  read_lines-Gives :
      (lines : List Text)
      → Gives
          (read_lines fl api lib now_domain slice lines)
          (initialized api lib slice (names_of lines))
  unfolding read_lines
  read_lines-Gives [] = log-Gives _
  read_lines-Gives (line ∷ _) =
      Gives-bind (store_names fl api lib now_domain slice (split_at b',' line))
        (λ _. check_size fl api lib now_domain slice)
        (λ d. all_stored api lib slice d (split_at b',' line))
        (op_done api lib slice api.cache_size_active) (store_names-Gives (split_at b',' line))
        (λ _. check_size-Gives)

  pub read_config-Gives :
      (config : Option Text)
      → Gives
          (read_config fl api lib now_domain slice config)
          (initialized api lib slice (names_in config))
  unfolding read_config
  read_config-Gives none = log-Gives _
  read_config-Gives (some text) = read_lines-Gives (getlines text)
