-- ===== src/Pmda/Preserves.antt =====
-- What the callbacks keep of the members when the agent's methods keep it
-- (include/pcp-cpp/pmda.hpp).
use pcp_pmda_cpp.Base.{
  Text, ◌++◌, ◌==◌, hexadecimal, ℕ, Bool, true, false, Bool-cases, inl, inr, List, [], ◌∷◌, Option,
  codes, if◌then◌else◌,
}
use pcp_pmda_cpp.Base.Int.{ℤ, eq_ℤ}
use pcp_pmda_cpp.Pcp.{Pmapi}
use pcp_pmda_cpp.Exception.{Result, ok, err, Thrown, pcp, out_of_range, std, unknown}
use pcp_pmda_cpp.Metrics.Defs.{at_metric}
use pcp_pmda_cpp.Pmda.Validate.{validate_instance}
use pcp_pmda_cpp.Pmda.State.{
  Config, Pmda, Method, MetricId, FetchValueResult, LogEntry, Agent, ◌>>=◌, notify, entry,
  at_position, log_err, log_debug, log_notice,
}
use pcp_pmda_cpp.Pmda.Checked.{checked_description, caught}
use pcp_pmda_cpp.Pmda.Fetch.{
  PmdaMetric, expected_type, fetch_metric, fetch_end, on_fetch_callback, fetch_begun, on_fetch,
}
use pcp_pmda_cpp.Pmda.Store.{
  PmValue, PmValueSet, storable_type, store_value, store_one, store_values, store_sets, store_end,
  on_store, is_storable,
}
use pcp_pmda_cpp.Pmda.HelpText.{
  has_flag, text_pmid, text_indom, metric_text, instance_text, text_end, on_text,
}

module _ {ℓ μ} {S : Type ℓ} (P : Pmda S → Type μ) where
  unfoldable pub Preserves {κ} : {A : Type κ} → (Pmda S → A × Pmda S) → Type (ℓ ⊔ μ)
  Preserves m = (s : Pmda S) → P s → P (m s).1

  pub Preserves-bind {κ ν} :
      {A : Type κ} {B : Type ν} (m : Method S A) (k : A → Method S B)
      → Preserves m
      → ((a : A) → Preserves (k a))
      → Preserves (m >>= k)
  unfolding Preserves
  Preserves-bind {A} {B} m k hm hk s p = go (m s).0 (m s).1 (hm s p)
    where
      go :
          (r : Result A) (t : Pmda S)
          → P t
          → P (elim r as (λ x. Result B × Pmda S) [ ok a ↦ k a t | err e ↦ (err e, t) ]).1
      go (ok a) t q = hk a t q
      go (err e) t q = q

  -- A method that only reads.
  pub Preserves-reads {κ} : {A : Type κ} (f : Pmda S → A) → Preserves (λ s. (f s, s))
  unfolding Preserves
  Preserves-reads f s p = p

  pub Preserves-if {κ} :
      {A : Type κ} (b : Bool) (m k : Pmda S → A × Pmda S)
      → Preserves m
      → Preserves k
      → Preserves (if b then m else k)
  Preserves-if true m k hm hk = hm
  Preserves-if false m k hm hk = hk

-- The agent's methods keep `P`, and so does writing to the log.
pub record Keeps {ℓ κ μ} {S : Type ℓ} {A : Type κ} (P : Pmda S → Type μ) (agent : Agent S A)
    : Type (ℓ ⊔ κ ⊔ μ) where
  pub notify_keeps : (e : LogEntry) (s : Pmda S) → P s → P (notify e s)
  pub begin_keeps : Preserves P agent.begin_fetch_values
  pub fetch_keeps : (id : MetricId) → Preserves P (agent.fetch_value id)
  pub int_keeps : (id : MetricId) (v : ℤ) → Preserves P (agent.store_int id v)
  pub block_keeps : (id : MetricId) (v : ℕ) → Preserves P (agent.store_block id v)

module _ {ℓ κ μ} {S : Type ℓ} {A : Type κ} (cfg : Config) (api : Pmapi) (agent : Agent S A)
    (P : Pmda S → Type μ) (keeps : Keeps P agent) where
  caught-Preserves : (e : Thrown) → Preserves P (caught api e)
  unfolding caught Preserves
  caught-Preserves (pcp ex) s p = elim (Bool-cases (eq_ℤ ex.pm_error_code api.fetch_novalues)) [
    | inl e ↦ rw e p
    | inr e ↦ rw e (keeps.notify_keeps (entry log_err ex.message) s p)
  ]
  caught-Preserves out_of_range s p = keeps.notify_keeps _ s p
  caught-Preserves (std what) s p = keeps.notify_keeps _ s p
  caught-Preserves unknown s p = keeps.notify_keeps _ s p

  checked_description-Preserves :
      (c i inst : ℕ) → Preserves P (checked_description cfg api c i inst)
  unfolding checked_description
  checked_description-Preserves c i inst =
      Preserves-bind P _ _ (Preserves-reads P (λ s. at_metric c i s.supported_metrics)) (λ d.
        Preserves-bind P _ _ (Preserves-reads P (λ s. validate_instance cfg api s.heap d inst))
          (λ u. Preserves-reads P (λ s. ok d)))

  expected_type-Preserves : (c i inst : ℕ) → Preserves P (expected_type cfg api c i inst)
  unfolding expected_type
  expected_type-Preserves c i inst =
      Preserves-if P cfg.no_id_validity_checks _ _ (Preserves-reads P (λ s. ok api.type_unknown)) (
        Preserves-bind P _ _ (checked_description-Preserves c i inst)
          (λ d. Preserves-reads P (λ s. ok d.type)))

  fetch_metric-Preserves :
      (m : PmdaMetric) (inst : ℕ) → Preserves P (fetch_metric cfg api agent m inst)
  unfolding fetch_metric
  fetch_metric-Preserves m inst =
      Preserves-bind P _ _ (expected_type-Preserves _ _ inst) (λ t. keeps.fetch_keeps _)

  fetch_end-Preserves :
      (r : Result (FetchValueResult A)) (s : Pmda S) → P s → P (fetch_end cfg api (r, s)).1
  unfolding fetch_end Preserves
  fetch_end-Preserves (ok r) s p = p
  fetch_end-Preserves (err e) s p = caught-Preserves e s p

  pub on_fetch_callback-Preserves :
      (m : PmdaMetric) (inst : ℕ) → Preserves P (on_fetch_callback cfg api agent m inst)
  unfolding on_fetch_callback Preserves
  on_fetch_callback-Preserves m inst s p =
      fetch_end-Preserves _ _ (fetch_metric-Preserves m inst s p)

  fetch_begun-Preserves :
      (code : ℤ) (r : Result (Unit {0})) (s : Pmda S)
      → P s
      → P (fetch_begun (λ t. (ok code, t)) (r, s)).1
  unfolding fetch_begun
  fetch_begun-Preserves code (ok _) s p = p
  fetch_begun-Preserves code (err (pcp ex)) s p = keeps.notify_keeps _ s p
  fetch_begun-Preserves code (err out_of_range) s p = p
  fetch_begun-Preserves code (err (std what)) s p = p
  fetch_begun-Preserves code (err unknown) s p = p

  pub on_fetch-Preserves : (code : ℤ) → Preserves P (on_fetch agent (λ t. (ok code, t)))
  unfolding on_fetch Preserves
  on_fetch-Preserves code s p = fetch_begun-Preserves code _ _ (keeps.begin_keeps s p)

  storable_type-Preserves : (c i inst : ℕ) → Preserves P (storable_type cfg api agent c i inst)
  unfolding storable_type
  storable_type-Preserves c i inst =
      Preserves-if P cfg.no_id_validity_checks _ _ (Preserves-reads P _) (
        Preserves-bind P _ _ (checked_description-Preserves c i inst)
          (λ d. Preserves-if P (is_storable d) _ _ (Preserves-reads P _) (Preserves-reads P _)))

  store_value-Preserves :
      (valfmt : ℕ) (id : MetricId) (v : PmValue)
      → Preserves P (store_value cfg api agent valfmt id v)
  unfolding store_value
  store_value-Preserves valfmt id v =
      Preserves-if P (valfmt == api.val_insitu) _ _ (keeps.int_keeps id v.lval)
        (keeps.block_keeps id v.pval)

  pub store_one-Preserves :
      (set : PmValueSet) (v : PmValue) → Preserves P (store_one cfg api agent set v)
  unfolding store_one
  store_one-Preserves set v =
      Preserves-bind P _ _ (storable_type-Preserves _ _ v.inst)
        (λ t. store_value-Preserves set.valfmt _ v)

  pub store_values-Preserves :
      (set : PmValueSet) (vs : List PmValue) (b : Bool)
      → Preserves P (store_values cfg api agent set vs b)
  unfolding store_values
  store_values-Preserves set [] b = Preserves-reads P _
  store_values-Preserves set (v ∷ vs) b =
      Preserves-bind P _ _ (store_one-Preserves set v) (λ u. store_values-Preserves set vs true)

  store_sets-Preserves :
      (sets : List PmValueSet) (b : Bool) → Preserves P (store_sets cfg api agent sets b)
  unfolding store_sets
  store_sets-Preserves [] b = Preserves-reads P _
  store_sets-Preserves (set ∷ sets) b =
      Preserves-bind P _ _ (store_values-Preserves set set.vlist b)
        (λ b'. store_sets-Preserves sets b')

  store_end-Preserves :
      (code : ℤ) (r : Result Bool) (s : Pmda S) → P s → P (store_end cfg api agent code (r, s)).1
  unfolding store_end Preserves
  store_end-Preserves code (ok true) s p = p
  store_end-Preserves code (ok false) s p = p
  store_end-Preserves code (err e) s p = caught-Preserves e s p

  pub on_store-Preserves :
      (code : ℤ) (sets : List PmValueSet) → Preserves P (on_store cfg api agent code sets)
  unfolding on_store Preserves
  on_store-Preserves code sets s p =
      store_end-Preserves code _ _ (store_sets-Preserves sets false _ (keeps.notify_keeps _ s p))

  text_end-Preserves :
      (given : ℤ × Option Text) (r : Result Text) (s : Pmda S) → P s → P (text_end api given r s).1
  unfolding text_end
  text_end-Preserves given (ok text) s p = p
  text_end-Preserves given (err (pcp ex)) s p =
      elim (Bool-cases (eq_ℤ ex.pm_error_code api.err_text)) [
        | inl e ↦ rw e (keeps.notify_keeps (at_position log_debug) s p)
        | inr e ↦ rw e (keeps.notify_keeps (entry log_notice ex.message) s p)
      ]
  text_end-Preserves given (err out_of_range) s p = keeps.notify_keeps _ s p
  text_end-Preserves given (err (std what)) s p = keeps.notify_keeps _ s p
  text_end-Preserves given (err unknown) s p = keeps.notify_keeps _ s p

  pub on_text-Preserves :
      (given : ℤ × Option Text) (ident type : ℕ) → Preserves P (on_text api given ident type)
  unfolding on_text Preserves
  on_text-Preserves given ident type s p = elim (Bool-cases (has_flag type text_pmid)) [
    | inl e ↦ rw e (text_end-Preserves given (metric_text api ident _ s) s p)
    | inr e ↦ elim (Bool-cases (has_flag type text_indom)) [
      | inl f ↦ rw (e, f) (text_end-Preserves given (instance_text api ident _ s) s p)
      | inr f ↦
          rw (e, f)
            (keeps.notify_keeps
              (entry log_notice (codes "unknown text type 0x" ++ hexadecimal type)) s p)
    ]
  ]
