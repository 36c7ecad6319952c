-- ===== src/Simple/ColourServed.antt =====
-- simple.color from the DSO's entry point to a store and a fetch (example/simple/simple.cpp, on
-- include/pcp-cpp/pmda.hpp).
use pcp_pmda_cpp.Base.{
  ℕ, ◌+◌, ◌%◌, ◌≤◌, ◌<◌, ◌≡◌, ◌≢◌, refl, ap, Text, codes, ◌∙◌, arith, false, true, is_some, List,
  [], ◌∷◌, some, set,
}
use pcp_pmda_cpp.Base.Int.{ℤ, pos, is_neg}
use pcp_pmda_cpp.Map.{find, insert, nat_ord}
use pcp_pmda_cpp.Pcp.{Pmapi, PmidLaws, IsAscending}
use pcp_pmda_cpp.Exception.{Result, ok}
use pcp_pmda_cpp.InstanceDomain.{instance_domain, call_domain, call_name}
use pcp_pmda_cpp.Atom.Words.{to_signed_id_32}
use pcp_pmda_cpp.Atom.Defs.{Floats, l, integer, atom}
use pcp_pmda_cpp.Cache.Defs.{CacheLibrary}
use pcp_pmda_cpp.Pmda.State.{Config, Pmda, MetricId, static_result, notify, entry, log_info}
use pcp_pmda_cpp.Pmda.Validate.{IsInstanceOf}
use pcp_pmda_cpp.Pmda.Fetch.{PmdaMetric, on_fetch_callback}
use pcp_pmda_cpp.Pmda.FetchLaws.{metric_id, on_fetch_callback-registered}
use pcp_pmda_cpp.Pmda.Store.{PmValue, PmValueSet, is_storable, store_one, on_store}
use pcp_pmda_cpp.Pmda.StoreOne.{one_value, store_id, store_one-insitu, on_store-one}
use pcp_pmda_cpp.Pmda.Init.{Tables}
use pcp_pmda_cpp.Pmda.LifeCycle.{Process}
use pcp_pmda_cpp.Pmda.Callbacks.{Defaults}
use pcp_pmda_cpp.Pmda.Preserves.{Preserves}
use pcp_pmda_cpp.Pmda.Serving.{Request, Serves, HasInstance}
use pcp_pmda_cpp.Simple.Defs.{Simple, new_color_domain, store_value}
use pcp_pmda_cpp.Simple.Colour.{IsColour, byte-lt, store_value-fetch_value}
use pcp_pmda_cpp.Simple.TimeNow.{Os, State}
use pcp_pmda_cpp.Simple.Metrics.{color}
use pcp_pmda_cpp.Simple.Agent.{simple, surroundings, with_timenow, without_timenow}
use pcp_pmda_cpp.Simple.Invariant.{IsSound, simple-Keeps}
use pcp_pmda_cpp.Simple.Program.{simple_init, simple_init-IsSound}

-- A value of simple.color, in place, as pmstore sends it.
abbrev pub colour_value : ℕ → ℕ → PmValue
colour_value inst v = record { inst = inst; lval = pos v; pval = 0 }

abbrev pub colour_set : Pmapi → ℕ → ℕ → PmValueSet
colour_set api inst v = one_value (api.pmda_pmid 0 1) api.val_insitu (colour_value inst v)

module _ {C : Type 0} (fl : Floats) (cfg : Config) (api : Pmapi) (lib : CacheLibrary C)
    (color_domain now_domain : ℕ) (slice : ℕ → ℕ) where
  static_result-color :
      IsAscending api.types
      → (n : ℕ) → n < 256
      → static_result api (atom fl api (color api color_domain now_domain).type (integer (pos n)))
        ≡ ok (record { atom = l (pos n); code = api.fetch_static })
  unfolding static_result color atom
  static_result-color asc n h = ground (arith, to_signed_id_32 (pos n))

  color-is_some : (i : ℕ) → i < 3 → is_some (find i (new_color_domain api).instances) ≡ true
  unfolding new_color_domain instance_domain call_domain call_name insert find
  color-is_some i e = ground arith

  pub color-IsInstanceOf :
      (s : Pmda (State fl C)) (i : ℕ)
      → IsSound fl api color_domain now_domain s
      → i < 3
      → i ≢ api.indom_null
      → IsInstanceOf api s.heap (some color_domain) i
  color-IsInstanceOf s i sound h here =
      (here, ap (λ m. is_some (find i m)) sound.colours ∙ color-is_some i h)

  module _ (laws : PmidLaws api) (asc : IsAscending api.types) (differ : color_domain ≢ now_domain)
      (on : cfg.no_id_validity_checks ≡ false) (v inst : ℕ) (hv : v ≤ 255) (hi : inst < 3)
      (here : inst ≢ api.indom_null) (s : Pmda (State fl C))
      (sound : IsSound fl api color_domain now_domain s) where
    -- What the surroundings tell at the store and at the fetch.
    module _ (w w' : Os × (fl.Double × fl.Double)) (m : PmdaMetric) where
      abbrev id : MetricId
      id =
          store_id cfg api (simple fl api lib color_domain now_domain slice w)
            (colour_set api inst v) (colour_value inst v) (color api color_domain now_domain)

      abbrev stored : Pmda (State fl C)
      stored = with_timenow fl s.agent.1 (store_value fl api id (pos v) (without_timenow fl s)).1

      abbrev fetched : Pmda (Simple fl)
      fetched =
          let t = without_timenow fl s in
          record t { agent = record t.agent { rgb = set t.agent.rgb inst ((v + 1) % 256) } }

      round_trip :
          ((store_value fl api id (pos v) (without_timenow fl s)).0 ≡ ok tt)
          × ((simple fl api lib color_domain now_domain slice w').fetch_value
                (metric_id 0 1 inst (color api color_domain now_domain) m.m_user)
                stored
              ≡ (
                ok (record { atom = l (pos ((v + 1) % 256)); code = api.fetch_static }),
                with_timenow fl s.agent.1 fetched,
              ))
      unfolding simple IsColour
      round_trip =
          let (done, next) =
            store_value-fetch_value fl api (surroundings fl lib now_domain s.agent.1 w'.1) id
              (metric_id 0 1 inst (color api color_domain now_domain) m.m_user) v
              (without_timenow fl s)
              (rw (laws.item_of_pmid 0 1 (omega arith) (omega arith)) (omega arith)) refl
              (omega arith) refl hv (ground (arith, sound.colour.0, hi)) in
          (
            done,
            ap (λ x. (x.0, with_timenow fl s.agent.1 x.1))
                (next
                  ∙ ap (λ r. (r, fetched))
                      (static_result-color asc ((v + 1) % 256) (byte-lt (v + 1)))),
          )

      store_colour :
          store_one cfg api
            (simple fl api lib color_domain now_domain slice w)
            (colour_set api inst v)
            (colour_value inst v)
            s
          ≡ (ok tt, stored)
      unfolding simple color is_storable
      store_colour =
          store_one-insitu cfg api (simple fl api lib color_domain now_domain slice w)
            (colour_set api inst v) (colour_value inst v) s (color api color_domain now_domain) on
            (rw
              (
                laws.cluster_of_pmid 0 1 (omega arith) (omega arith),
                laws.item_of_pmid 0 1 (omega arith) (omega arith),
              )
              (sound.metrics 0 1))
            (color-IsInstanceOf s inst sound hi here) refl refl
          ∙ ap (λ r. (r, stored)) round_trip.0

      fetch_colour :
          4 ≤ cfg.interface_version
          → m.m_desc.pmid ≡ api.pmda_pmid 0 1
          → on_fetch_callback cfg api
              (simple fl api lib color_domain now_domain slice w')
              m
              inst
              stored
            ≡ (
              (api.fetch_static, some (l (pos ((v + 1) % 256)))),
              with_timenow fl s.agent.1 fetched,
            )
      unfolding simple Preserves
      fetch_colour old e =
          let kept =
            (simple-Keeps fl api lib color_domain now_domain slice differ w).int_keeps id (pos v) s
              sound in
          on_fetch_callback-registered cfg api laws
            (simple fl api lib color_domain now_domain slice w') 0 1 inst m stored
            (with_timenow fl s.agent.1 fetched) (color api color_domain now_domain) _ on old
            (omega arith) (omega arith) e (kept.metrics 0 1)
            (color-IsInstanceOf stored inst kept hi here) round_trip.1

  -- A component between 0 and 255 is stored, in place, at one of the three instances of
  -- simple.color, and is then fetched, after simple_init, where the caller understands the protocol
  -- and pmdaDSO succeeds, and after any sequence of requests through the table of callbacks,
  -- whatever the surroundings tell at each, at the store and at the fetch. The instance is there,
  -- on_store returns 0, the fetch returns PMDA_FETCH_STATIC and the component that was stored plus
  -- one, modulo 256, and the colour then has that component at the instance and the other two as
  -- they were, with the checks compiled in and interface version 4 or later.
  pub simple_init-color :
      PmidLaws api
      → IsAscending api.types
      → color_domain ≢ now_domain
      → (defaults : Defaults) (range_what : Text) (pmda_init : Tables → ℕ → ℕ)
        (start w w' : Os × (fl.Double × fl.Double)) (understood : ℕ) (status pmda_store : ℤ)
        (s : Pmda (State fl C)) (p p' : Process (State fl C)) (rs : List (Request × Result ℤ))
        (m : PmdaMetric) (v inst : ℕ)
      → cfg.no_id_validity_checks ≡ false
      → 4 ≤ cfg.interface_version
      → cfg.interface_version ≤ understood
      → is_neg status ≡ false
      → m.m_desc.pmid ≡ api.pmda_pmid 0 1
      → v ≤ 255
      → inst < 3
      → inst ≢ api.indom_null
      → Serves cfg api defaults
          (simple fl api lib color_domain now_domain slice)
          (simple_init fl cfg api lib range_what color_domain now_domain slice pmda_init start
            understood status s p).1
          rs
          p'
      → (s' : Pmda (State fl C)) × (p'.instance_ ≡ some s')
        × (let (code, kept) =
              on_store cfg api
                (simple fl api lib color_domain now_domain slice w)
                pmda_store
                (colour_set api inst v ∷ [])
                s' in
            let (answer, after) =
              on_fetch_callback cfg api
                (simple fl api lib color_domain now_domain slice w')
                m
                inst
                kept in
            (code ≡ pos 0)
            × (answer ≡ (api.fetch_static, some (l (pos ((v + 1) % 256)))))
            × (after.agent.0.rgb ≡ set s'.agent.0.rgb inst ((v + 1) % 256)))
  unfolding HasInstance simple notify
  simple_init-color laws asc differ defaults range_what pmda_init start w w' understood status
        pmda_store s p p' rs m v inst on old u nonneg e hv hi here served =
      let (s', there, sound) =
        simple_init-IsSound fl cfg api lib range_what color_domain now_domain slice pmda_init start
          differ defaults understood status s p p' rs u nonneg served in
      let noted = notify (entry log_info (codes "on store")) s' in
      let noted_sound =
        (simple-Keeps fl api lib color_domain now_domain slice differ w).notify_keeps
          (entry log_info (codes "on store")) s' sound in
      let run =
        on_store-one cfg api (simple fl api lib color_domain now_domain slice w) pmda_store
          (api.pmda_pmid 0 1) api.val_insitu (colour_value inst v) s'
          (stored laws asc differ on v inst hv hi here noted noted_sound w w' m)
          (store_colour laws asc differ on v inst hv hi here noted noted_sound w w' m) in
      let fetched_after =
        ap
          (λ x.
            on_fetch_callback cfg api (simple fl api lib color_domain now_domain slice w') m inst
              x.1)
          run
        ∙ fetch_colour laws asc differ on v inst hv hi here noted noted_sound w w' m old e in
      (
        s',
        there,
        (ap (λ x. x.0) run, ap (λ x. x.0) fetched_after, ap (λ x. x.1.agent.0.rgb) fetched_after),
      )
