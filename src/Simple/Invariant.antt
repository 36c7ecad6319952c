-- ===== src/Simple/Invariant.antt =====
-- What stays true of the members of example/simple/simple.cpp while its callbacks are called.
use pcp_pmda_cpp.Base.{
  ℕ, ◌==◌, ◌≡◌, ◌≢◌, refl, sym, ap, ◌∙◌, subst, arith, Bool-cases, inl, inr, none, some,
}
use pcp_pmda_cpp.Base.Int.{ℤ, pos, is_neg, ltb_ℤ}
use pcp_pmda_cpp.Map.{nat_ord}
use pcp_pmda_cpp.Pcp.{Pmapi}
use pcp_pmda_cpp.Exception.{ok}
use pcp_pmda_cpp.Metrics.Lookup.{lookup}
use pcp_pmda_cpp.Metrics.Calls.{first_metric}
use pcp_pmda_cpp.Atom.Defs.{Floats}
use pcp_pmda_cpp.Cache.Defs.{CacheLibrary}
use pcp_pmda_cpp.Pmda.State.{Pmda, MetricId, notify}
use pcp_pmda_cpp.Pmda.BaseStore.{store_block}
use pcp_pmda_cpp.Pmda.Init.{Tables, initialize_pmda}
use pcp_pmda_cpp.Pmda.InitAgent.{initialize_pmda-agent}
use pcp_pmda_cpp.Pmda.Registered.{recorded-instances, initialize_pmda-registers}
use pcp_pmda_cpp.Pmda.Preserves.{Keeps, Preserves}
use pcp_pmda_cpp.Simple.Defs.{
  Simple, Surroundings, new_color_domain, new_simple, fetch_value, store_value,
}
use pcp_pmda_cpp.Simple.Colour.{IsColour, fetch_store-IsColour}
use pcp_pmda_cpp.Simple.TimeNow.{Os, State}
use pcp_pmda_cpp.Simple.Frame.{IsStable, begin_fetch_values-Preserves}
use pcp_pmda_cpp.Simple.Metrics.{calls, get_supported_metrics-storable}
use pcp_pmda_cpp.Simple.Agent.{construct, simple, surroundings, without_timenow, with_timenow}

-- The table of metrics is the one that was built, the domain of the colours has its three
-- instances, and the colour is three bytes.
pub record IsSound {C : Type 0} (fl : Floats) (api : Pmapi) (color_domain now_domain : ℕ)
    (s : Pmda (State fl C)) : Type 0 where
  pub metrics :
      (c i : ℕ)
      → lookup c i s.supported_metrics ≡ first_metric none (calls api color_domain now_domain) c i
  pub colours : (s.heap color_domain).instances ≡ (new_color_domain api).instances
  pub colour : IsColour s.agent.0.rgb

new_simple-IsColour : (fl : Floats) → IsColour (new_simple fl).rgb
unfolding new_simple IsColour
new_simple-IsColour fl = (refl, ground arith)

-- Only the agent's own members are changed.
IsChanged : (fl : Floats) → Pmda (Simple fl) → Pmda (Simple fl) → Type 0
IsChanged fl s s' = (s'.supported_metrics ≡ s.supported_metrics) × (s'.heap ≡ s.heap)

module _ (fl : Floats) (api : Pmapi) where
  fetch_value-members :
      (env : Surroundings fl) (id : MetricId) (s : Pmda (Simple fl))
      → IsChanged fl s (fetch_value fl api env id s).1
  unfolding fetch_value IsChanged
  fetch_value-members env id s = elim (Bool-cases (id.cluster == 1)) [
    | inl e ↦ rw e (refl, refl)
    | inr e ↦ elim (Bool-cases (id.cluster == 2)) [
      | inl f ↦ rw (e, f) (refl, refl)
      | inr f ↦ elim (Bool-cases (id.item == 0)) [
        | inl g ↦ rw (e, f, g) (refl, refl)
        | inr g ↦ rw (e, f, g) (refl, refl)
      ]
    ]
  ]

  store_value-members :
      (id : MetricId) (v : ℤ) (s : Pmda (Simple fl)) → IsChanged fl s (store_value fl api id v s).1
  unfolding store_value IsChanged
  store_value-members id v s = elim (Bool-cases (id.item == 0)) [
    | inl e ↦ rw e (refl, refl)
    | inr e ↦ elim (Bool-cases (is_neg v)) [
      | inl f ↦ rw (e, f) (refl, refl)
      | inr f ↦ elim (Bool-cases (ltb_ℤ (pos 255) v)) [
        | inl g ↦ rw (e, f, g) (refl, refl)
        | inr g ↦ rw (e, f, g) (refl, refl)
      ]
    ]
  ]

module _ {C : Type 0} (fl : Floats) (api : Pmapi) (color_domain now_domain : ℕ)
    (differ : color_domain ≢ now_domain) where
  IsSound-IsStable : IsStable {C = C} fl now_domain (IsSound fl api color_domain now_domain)
  unfolding notify
  IsSound-IsStable = record {
    log_stable = λ e s p. record { metrics = p.metrics; colours = p.colours; colour = p.colour };
    timenow_stable =
        λ t s p. record { metrics = p.metrics; colours = p.colours; colour = p.colour };
    heap_stable = λ n i s p. record {
      metrics = p.metrics;
      colours = ground (arith, differ, p.colours);
      colour = p.colour;
    };
    numfetch_stable =
        λ n s p. record { metrics = p.metrics; colours = p.colours; colour = p.colour };
  }

module _ {C : Type 0} (fl : Floats) (api : Pmapi) (lib : CacheLibrary C)
    (color_domain now_domain : ℕ) (slice : ℕ → ℕ) (differ : color_domain ≢ now_domain) where
  with_timenow-IsSound :
      (s : Pmda (State fl C))
      → IsSound fl api color_domain now_domain s
      → (s' : Pmda (Simple fl)) → IsChanged fl (without_timenow fl s) s'
      → IsColour s'.agent.rgb
      → IsSound fl api color_domain now_domain (with_timenow fl s.agent.1 s')
  unfolding IsChanged
  with_timenow-IsSound s p s' (table, heap) c = record {
    metrics = λ c i. ap (lookup c i) table ∙ p.metrics c i;
    colours = ap (λ h. (h color_domain).instances) heap ∙ p.colours;
    colour = c;
  }

  construct-colours :
      (s : Pmda (State fl C))
      → ((construct fl api lib color_domain now_domain slice s).heap color_domain).instances
        ≡ (new_color_domain api).instances
  unfolding construct
  construct-colours s = ground arith

  -- It is kept by everything that the agent does, whatever the surroundings tell.
  pub simple-Keeps :
      (w : Os × (fl.Double × fl.Double))
      → Keeps
          (IsSound fl api color_domain now_domain)
          (simple fl api lib color_domain now_domain slice w)
  unfolding simple notify Preserves store_block
  simple-Keeps (os, run_times) =
      let stable = IsSound-IsStable {C = C} fl api color_domain now_domain differ in
      record {
        notify_keeps = stable.log_stable;
        begin_keeps =
            begin_fetch_values-Preserves fl api lib now_domain slice
              (IsSound fl api color_domain now_domain) stable os;
        fetch_keeps = λ id s p.
            with_timenow-IsSound s p _
              (fetch_value-members fl api (surroundings fl lib now_domain s.agent.1 run_times) id
                (without_timenow fl s))
              (fetch_store-IsColour fl api (surroundings fl lib now_domain s.agent.1 run_times) id
                (pos 0) (without_timenow fl s) p.colour).0;
        int_keeps = λ id v s p.
            with_timenow-IsSound s p _ (store_value-members fl api id v (without_timenow fl s))
              (fetch_store-IsColour fl api (surroundings fl lib now_domain s.agent.1 run_times) id v
                (without_timenow fl s) p.colour).1;
        block_keeps = λ id v s p. p;
      }

  -- It holds when the constructor and initialize_pmda have run.
  pub initialize_pmda-IsSound :
      (pmda_init : Tables → ℕ → ℕ) (w : Os × (fl.Double × fl.Double)) (s : Pmda (State fl C))
      → IsSound fl api color_domain now_domain
          (initialize_pmda api
            (simple fl api lib color_domain now_domain slice w)
            pmda_init
            (construct fl api lib color_domain now_domain slice s)).1
  unfolding simple construct
  initialize_pmda-IsSound pmda_init w s =
      let agent = simple fl api lib color_domain now_domain slice w in
      let made = construct fl api lib color_domain now_domain slice s in
      let (m, built, found, _) = get_supported_metrics-storable api color_domain now_domain made in
      let (t, ready, run, _, supported, heap, _) =
        initialize_pmda-registers api agent pmda_init made made m built in
      record {
        metrics = λ c i.
            ap (λ x. lookup c i x.1.supported_metrics) run ∙ ap (lookup c i) supported ∙ found c i;
        colours =
            ap (λ x. (x.1.heap color_domain).instances) run
            ∙ ap (λ d. d.instances) (heap color_domain)
            ∙ recorded-instances (pmda_init t) 0 _ (made.heap color_domain)
            ∙ construct-colours s;
        colour =
            subst (λ x. IsColour x.0.rgb)
              (sym (initialize_pmda-agent api agent pmda_init made made m built))
              (new_simple-IsColour fl);
      }

  -- It builds its tables.
  pub initialize_pmda-tables :
      (pmda_init : Tables → ℕ → ℕ) (w : Os × (fl.Double × fl.Double)) (s : Pmda (State fl C))
      → (t : Tables) × ((initialize_pmda api
            (simple fl api lib color_domain now_domain slice w)
            pmda_init
            (construct fl api lib color_domain now_domain slice s)).0
          ≡ ok (some t))
  unfolding simple
  initialize_pmda-tables pmda_init w s =
      let made = construct fl api lib color_domain now_domain slice s in
      let (m, built, _, _) = get_supported_metrics-storable api color_domain now_domain made in
      let (t, _, run, _, _, _, _) =
        initialize_pmda-registers api (simple fl api lib color_domain now_domain slice w) pmda_init
          made made m built in
      (t, ap (λ x. x.0) run)
