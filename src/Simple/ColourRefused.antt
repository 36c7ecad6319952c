-- ===== src/Simple/ColourRefused.antt =====
-- Values of simple.color that store_value of example/simple/simple.cpp refuses, from the DSO's entry
-- point on (with include/pcp-cpp/pmda.hpp).
use pcp_pmda_cpp.Base.{
  ℕ, ◌≤◌, ◌<◌, ◌≡◌, ◌≢◌, refl, sym, ap, Text, codes, ◌∙◌, subst, arith, false, true, List, [], ◌∷◌,
  some, Bool-cases, inl, inr,
}
use pcp_pmda_cpp.Base.Int.{ℤ, pos, negsuc, is_neg, ltb_ℤ, ◌≤ℤ◌, eq_ℤ}
use pcp_pmda_cpp.Pcp.{Pmapi, PmidLaws}
use pcp_pmda_cpp.Exception.{Result, err, pcp, exception}
use pcp_pmda_cpp.Atom.Defs.{Floats}
use pcp_pmda_cpp.Cache.Defs.{CacheLibrary}
use pcp_pmda_cpp.Pmda.State.{Config, Pmda, MetricId, notify, entry, log_info}
use pcp_pmda_cpp.Pmda.Checked.{caught}
use pcp_pmda_cpp.Pmda.Store.{PmValue, is_storable, store_one, on_store}
use pcp_pmda_cpp.Pmda.StoreOne.{one_value, store_id, store_one-insitu, on_store-thrown}
use pcp_pmda_cpp.Pmda.Init.{Tables}
use pcp_pmda_cpp.Pmda.LifeCycle.{Process}
use pcp_pmda_cpp.Pmda.Callbacks.{Defaults}
use pcp_pmda_cpp.Pmda.Serving.{Request, Serves, HasInstance}
use pcp_pmda_cpp.Simple.Defs.{Simple, store_value}
use pcp_pmda_cpp.Simple.Colour.{not_equal}
use pcp_pmda_cpp.Simple.TimeNow.{Os, State}
use pcp_pmda_cpp.Simple.Metrics.{color}
use pcp_pmda_cpp.Simple.Agent.{simple, with_timenow, without_timenow}
use pcp_pmda_cpp.Simple.Invariant.{IsSound, simple-Keeps}
use pcp_pmda_cpp.Simple.ColourServed.{color-IsInstanceOf}
use pcp_pmda_cpp.Simple.Program.{simple_init, simple_init-IsSound}

-- The code for a value that is not between 0 and 255.
abbrev pub refused_code : Pmapi → ℤ → ℤ
refused_code api (pos n) = api.err_conv
refused_code api (negsuc n) = api.err_sign

-- A value in place.
abbrev pub value : ℕ → ℤ → PmValue
value inst z = record { inst = inst; lval = z; pval = 0 }

module _ (fl : Floats) (api : Pmapi) where
  store_value-refused :
      (id : MetricId) (z : ℤ) (s : Pmda (Simple fl))
      → id.item ≢ 0
      → ¬ ((pos 0 ≤ℤ z) × (z ≤ℤ pos 255))
      → store_value fl api id z s ≡ (err (pcp (exception api (refused_code api z) [])), s)
  unfolding store_value
  store_value-refused id (negsuc n) s hi out = rw (not_equal id.item 0 hi) refl
  store_value-refused id (pos n) s hi out = rw (not_equal id.item 0 hi, over) refl
    where
      over : ltb_ℤ (pos 255) (pos n) ≡ true
      over = ground (arith, out)

-- Only the log differs.
abbrev pub IsLogged {ℓ} : {S : Type ℓ} → Pmda S → Pmda S → Type ℓ
IsLogged s s' = s' ≡ record s { log = s'.log }

caught-IsLogged {ℓ} :
    {S : Type ℓ} (api : Pmapi) (code : ℤ) (message : Text) (s : Pmda S)
    → ((caught api (pcp (exception api code message)) s).0 ≡ code)
      × IsLogged s (caught api (pcp (exception api code message)) s).1
unfolding caught exception notify
caught-IsLogged api code message s = elim (Bool-cases (eq_ℤ code api.fetch_novalues)) [
  | inl e ↦ rw e (refl, refl)
  | inr e ↦ rw e (refl, refl)
]

module _ {C : Type 0} (fl : Floats) (cfg : Config) (api : Pmapi) (lib : CacheLibrary C)
    (color_domain now_domain : ℕ) (slice : ℕ → ℕ) where
  store_colour-refused :
      PmidLaws api
      → cfg.no_id_validity_checks ≡ false
      → (w : Os × (fl.Double × fl.Double)) (z : ℤ) (inst : ℕ) (s : Pmda (State fl C))
      → IsSound fl api color_domain now_domain s
      → ¬ ((pos 0 ≤ℤ z) × (z ≤ℤ pos 255))
      → inst < 3
      → inst ≢ api.indom_null
      → store_one cfg api
          (simple fl api lib color_domain now_domain slice w)
          (one_value (api.pmda_pmid 0 1) api.val_insitu (value inst z))
          (value inst z)
          s
        ≡ (err (pcp (exception api (refused_code api z) [])), s)
  unfolding simple color is_storable
  store_colour-refused laws on w z inst s sound out hi here =
      store_one-insitu cfg api (simple fl api lib color_domain now_domain slice w)
        (one_value (api.pmda_pmid 0 1) api.val_insitu (value inst z)) (value inst z) s
        (color api color_domain now_domain) on
        (rw
          (
            laws.cluster_of_pmid 0 1 (omega arith) (omega arith),
            laws.item_of_pmid 0 1 (omega arith) (omega arith),
          )
          (sound.metrics 0 1))
        (color-IsInstanceOf fl cfg api lib color_domain now_domain slice s inst sound hi here) refl
        refl
      ∙ ap (λ x. (x.0, with_timenow fl s.agent.1 x.1))
          (store_value-refused fl api
            (store_id cfg api (simple fl api lib color_domain now_domain slice w)
              (one_value (api.pmda_pmid 0 1) api.val_insitu (value inst z)) (value inst z)
              (color api color_domain now_domain))
            z (without_timenow fl s)
            (rw (laws.item_of_pmid 0 1 (omega arith) (omega arith)) (omega arith)) out)

  -- A value of simple.color that is not between 0 and 255 is stored, in place, at one of its three
  -- instances, after simple_init, where the caller understands the protocol and pmdaDSO succeeds, and
  -- after any sequence of requests through the table of callbacks, whatever the surroundings tell at
  -- each. The instance is there, on_store returns PM_ERR_SIGN for a negative value and PM_ERR_CONV
  -- for any other, and of the members only the log changes, with the checks compiled in.
  pub simple_init-refused :
      PmidLaws api
      → color_domain ≢ now_domain
      → (defaults : Defaults) (range_what : Text) (pmda_init : Tables → ℕ → ℕ)
        (start w : Os × (fl.Double × fl.Double)) (understood : ℕ) (status pmda_store : ℤ)
        (s : Pmda (State fl C)) (p p' : Process (State fl C)) (rs : List (Request × Result ℤ))
        (z : ℤ) (inst : ℕ)
      → cfg.no_id_validity_checks ≡ false
      → cfg.interface_version ≤ understood
      → is_neg status ≡ false
      → ¬ ((pos 0 ≤ℤ z) × (z ≤ℤ pos 255))
      → inst < 3
      → inst ≢ api.indom_null
      → Serves cfg api defaults
          (simple fl api lib color_domain now_domain slice)
          (simple_init fl cfg api lib range_what color_domain now_domain slice pmda_init start
            understood status s p).1
          rs
          p'
      → (s' : Pmda (State fl C)) × (p'.instance_ ≡ some s')
        × (let (code, after) =
              on_store cfg api
                (simple fl api lib color_domain now_domain slice w)
                pmda_store
                (one_value (api.pmda_pmid 0 1) api.val_insitu (value inst z) ∷ [])
                s' in
            (code ≡ refused_code api z) × IsLogged s' after)
  unfolding HasInstance notify
  simple_init-refused laws differ defaults range_what pmda_init start w understood status pmda_store
        s p p' rs z inst on u nonneg out hi here served =
      let (s', there, sound) =
        simple_init-IsSound fl cfg api lib range_what color_domain now_domain slice pmda_init start
          differ defaults understood status s p p' rs u nonneg served in
      let noted = notify (entry log_info (codes "on store")) s' in
      let noted_sound =
        (simple-Keeps fl api lib color_domain now_domain slice differ w).notify_keeps
          (entry log_info (codes "on store")) s' sound in
      let run =
        on_store-thrown cfg api (simple fl api lib color_domain now_domain slice w) pmda_store
          (api.pmda_pmid 0 1) api.val_insitu (value inst z) s' noted _
          (store_colour-refused laws on w z inst noted noted_sound out hi here) in
      let (code, logged) = caught-IsLogged api (refused_code api z) [] noted in
      (s', there, (ap (λ x. x.0) run ∙ code, subst (IsLogged s') (sym (ap (λ x. x.1) run)) logged))
