-- ===== src/Simple/InBounds.antt =====
-- The accesses of `rgb` in example/simple/simple.cpp are in its bounds.
use pcp_pmda_cpp.Base.{
  ℕ, ◌==◌, ltb, ◌≡◌, ◌≢◌, refl, sym, ap, ◌∙◌, subst, arith, true, false, Bool, not, ◌&&◌, is_some,
  List, none, some, if◌then◌else◌, length, ◌<◌,
}
use pcp_pmda_cpp.Base.Int.{ℤ}
use pcp_pmda_cpp.Map.{find, insert, nat_ord}
use pcp_pmda_cpp.Pcp.{Pmapi}
use pcp_pmda_cpp.Exception.{Result, err, unknown}
use pcp_pmda_cpp.InstanceDomain.{instance_domain, call_domain, call_name}
use pcp_pmda_cpp.Metrics.Defs.{MetricDescription}
use pcp_pmda_cpp.Metrics.Calls.{first_metric}
use pcp_pmda_cpp.Atom.Defs.{Floats, Atom}
use pcp_pmda_cpp.Cache.Defs.{CacheLibrary}
use pcp_pmda_cpp.Pmda.State.{Config, Pmda, MetricId, Agent}
use pcp_pmda_cpp.Pmda.Validate.{IsInstanceOf}
use pcp_pmda_cpp.Pmda.Store.{is_storable}
use pcp_pmda_cpp.Pmda.Init.{Tables}
use pcp_pmda_cpp.Pmda.LifeCycle.{Process}
use pcp_pmda_cpp.Pmda.Callbacks.{Defaults}
use pcp_pmda_cpp.Pmda.Serving.{Request, Serves, HasInstance}
use pcp_pmda_cpp.Pmda.Agrees.{Agrees}
use pcp_pmda_cpp.Pmda.Replays.{Serves-replayed}
use pcp_pmda_cpp.Simple.Defs.{new_color_domain}
use pcp_pmda_cpp.Simple.Colour.{IsColour}
use pcp_pmda_cpp.Simple.TimeNow.{Os, State}
use pcp_pmda_cpp.Simple.Metrics.{calls, numfetch, color, time, now}
use pcp_pmda_cpp.Simple.Agent.{simple}
use pcp_pmda_cpp.Simple.Invariant.{IsSound, simple-Keeps, initialize_pmda-IsSound}
use pcp_pmda_cpp.Simple.Served.{set_up}

-- Whether fetch_value, and store_value, come to `rgb[metric.instance]` for an identifier.
abbrev pub fetch_indexes : MetricId → Bool
fetch_indexes id = not (id.cluster == 1) && not (id.cluster == 2) && not (id.item == 0)

abbrev pub store_indexes : MetricId → Bool
store_indexes id = not (id.item == 0)

abbrev pub is_out_of_bounds {ℓ} : {fl : Floats} {C : Type ℓ} → MetricId → Pmda (State fl C) → Bool
is_out_of_bounds id s = not (ltb id.instance_id (length s.agent.0.rgb))

module _ {C : Type 0} (fl : Floats) (api : Pmapi) (lib : CacheLibrary C)
    (color_domain now_domain : ℕ) (slice : ℕ → ℕ) where
  -- The agent with each access of `rgb` checked: one out of its bounds throws.
  abbrev pub bounded : Os × (fl.Double × fl.Double) → Agent (State fl C) (Atom fl)
  bounded w =
      let agent = simple fl api lib color_domain now_domain slice w in
      record agent {
        fetch_value = λ id s.
            if fetch_indexes id && is_out_of_bounds id s
            then (err unknown, s)
            else agent.fetch_value id s;
        store_int = λ id v s.
            if store_indexes id && is_out_of_bounds id s
            then (err unknown, s)
            else agent.store_int id v s;
      }

  -- The only metric with an item other than 0 that is outside the clusters 1 and 2 is the colour,
  -- and so is the only storable one with an item other than 0.
  fetch_indexes-color :
      (id : MetricId) (d : MetricDescription)
      → first_metric none (calls api color_domain now_domain) id.cluster id.item ≡ some d
      → fetch_indexes id ≡ true
      → d.domain ≡ some color_domain
  unfolding color
  fetch_indexes-color id d found e = ground arith

  store_indexes-color :
      (id : MetricId) (d : MetricDescription)
      → first_metric none (calls api color_domain now_domain) id.cluster id.item ≡ some d
      → is_storable d ≡ true
      → store_indexes id ≡ true
      → d.domain ≡ some color_domain
  unfolding numfetch color time now is_storable
  store_indexes-color id d found storable e = ground arith

  color-lt : (i : ℕ) → is_some (find i (new_color_domain api).instances) ≡ true → i < 3
  unfolding new_color_domain instance_domain call_domain call_name insert find
  color-lt i e = ground arith

  in_bounds :
      (id : MetricId) (s : Pmda (State fl C)) (d : MetricDescription)
      → IsSound fl api color_domain now_domain s
      → IsInstanceOf api s.heap d.domain id.instance_id
      → d.domain ≡ some color_domain
      → is_out_of_bounds id s ≡ false
  unfolding IsColour
  in_bounds id s d sound valid e =
      let (_, registered) = subst (λ o. IsInstanceOf api s.heap o id.instance_id) e valid in
      let lt =
        color-lt id.instance_id
          (ap (λ m. is_some (find id.instance_id m)) (sym sound.colours) ∙ registered) in
      ground (arith, lt, sound.colour.0)

  unguarded {κ} :
      {A : Type κ} (b c : Bool) (x y : A) → (b ≡ true → c ≡ false) → y ≡ (if b && c then x else y)
  unguarded true c x y h = rw (h refl) refl
  unguarded false c x y h = refl

  simple-Agrees :
      (w : Os × (fl.Double × fl.Double))
      → Agrees api
          (IsSound fl api color_domain now_domain)
          (simple fl api lib color_domain now_domain slice w)
          (bounded w)
  simple-Agrees w = record {
    begin_agrees = λ s p. refl;
    fetch_agrees = λ id s d p found valid.
        unguarded (fetch_indexes id) (is_out_of_bounds id s) _ _ (λ e.
          in_bounds id s d p valid
            (fetch_indexes-color id d (sym (p.metrics id.cluster id.item) ∙ found) e));
    int_agrees = λ id v s d p found valid storable.
        unguarded (store_indexes id) (is_out_of_bounds id s) _ _ (λ e.
          in_bounds id s d p valid
            (store_indexes-color id d (sym (p.metrics id.cluster id.item) ∙ found) storable e));
    block_agrees = λ id v s d p found valid storable. refl;
  }

  -- With the checks compiled in, no request comes to an element of `rgb` that is not there: from the
  -- constructor and initialize_pmda on, whatever is fetched and stored and whatever the surroundings
  -- tell, the agent answers every sequence of requests as the agent that throws at an access out of
  -- bounds does, with the same members.
  pub Serves-bounded :
      (differ : color_domain ≢ now_domain)
      → (cfg : Config) → cfg.no_id_validity_checks ≡ false
      → (defaults : Defaults) (pmda_init : Tables → ℕ → ℕ) (start : Os × (fl.Double × fl.Double))
        (s : Pmda (State fl C)) (p p' : Process (State fl C)) (rs : List (Request × Result ℤ))
      → p.instance_
        ≡ some (set_up fl api lib color_domain now_domain slice differ pmda_init start s)
      → Serves cfg api defaults (simple fl api lib color_domain now_domain slice) p rs p'
      → Serves cfg api defaults bounded p rs p'
  unfolding HasInstance
  Serves-bounded differ cfg on defaults pmda_init start s p p' rs here served =
      Serves-replayed cfg api on defaults (IsSound fl api color_domain now_domain)
        (simple fl api lib color_domain now_domain slice) bounded
        (simple-Keeps fl api lib color_domain now_domain slice differ) simple-Agrees p p' rs served
        (
          _,
          here,
          initialize_pmda-IsSound fl api lib color_domain now_domain slice differ pmda_init start s,
        )
