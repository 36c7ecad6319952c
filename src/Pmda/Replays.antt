-- ===== src/Pmda/Replays.antt =====
-- Sequences of requests to an agent that another agent answers in the same way
-- (include/pcp-cpp/pmda.hpp).
use pcp_pmda_cpp.Base.{
  ◌≡◌, refl, ap, ◌∙◌, sym, Bool, true, false, codes, List, [], ◌∷◌, none, some, leb, if◌then◌else◌,
}
use pcp_pmda_cpp.Base.Int.{ℤ}
use pcp_pmda_cpp.Pcp.{Pmapi}
use pcp_pmda_cpp.Exception.{Result, ok, err}
use pcp_pmda_cpp.Pmda.State.{Config, Pmda, Method, Agent, ◌>>=◌, entry, log_info}
use pcp_pmda_cpp.Pmda.Fetch.{fetch_begun, on_fetch}
use pcp_pmda_cpp.Pmda.Store.{
  PmValue, PmValueSet, store_one, store_values, store_sets, store_end, on_store,
}
use pcp_pmda_cpp.Pmda.Preserves.{Keeps, Preserves, store_one-Preserves, store_values-Preserves}
use pcp_pmda_cpp.Pmda.LifeCycle.{Process}
use pcp_pmda_cpp.Pmda.Callbacks.{
  Defaults, Callback, through_instance, set_callbacks, callback_attribute, callback_children,
  callback_desc, callback_fetch, callback_fetch_callback, callback_instance, callback_name,
  callback_pmid, callback_profile, callback_store, callback_text,
}
use pcp_pmda_cpp.Pmda.Serving.{
  Request, profile, fetch, desc, instance_, text, store, pmid, name, children, attribute,
  fetch_callback, applied, requested, no_callbacks, handled, requested-handled, handled-IsKept,
  HasInstance, IsKept, through_instance-some, Serves, idle, next,
}
use pcp_pmda_cpp.Pmda.Agrees.{Agrees, on_fetch_callback-agrees, store_one-agrees}

-- What `>>=` does after its first method.
abbrev continued {ℓ κ ν} :
    {S : Type ℓ} {B : Type κ} {C : Type ν}
    → (B → Method S C)
    → Result B × Pmda S
    → Result C × Pmda S
continued l x = elim x.0 [ ok a ↦ l a x.1 | err e ↦ (err e, x.1) ]

module _ {ℓ κ μ} {S : Type ℓ} {A : Type κ} (cfg : Config) (api : Pmapi)
    (on : cfg.no_id_validity_checks ≡ false) (P : Pmda S → Type μ) (a b : Agent S A)
    (keeps : Keeps P a) (agrees : Agrees api P a b) where
  bind-agrees {ν ξ} :
      {B : Type ν} {C : Type ξ} (m n : Method S B) (k l : B → Method S C) (s : Pmda S)
      → m s ≡ n s
      → P (m s).1
      → ((x : B) (t : Pmda S) → P t → k x t ≡ l x t)
      → (m >>= k) s ≡ (n >>= l) s
  bind-agrees {B} {C} m n k l s same p rest = go (m s).0 (m s).1 p ∙ ap (continued l) same
    where
      go :
          (r : Result B) (t : Pmda S)
          → P t
          → elim r as (λ x. Result C × Pmda S) [ ok x ↦ k x t | err e ↦ (err e, t) ]
            ≡ continued l (r, t)
      go (ok x) t p = rest x t p
      go (err e) t p = refl

  store_values-agrees :
      (set : PmValueSet) (vs : List PmValue) (any : Bool) (s : Pmda S)
      → P s
      → store_values cfg api a set vs any s ≡ store_values cfg api b set vs any s
  unfolding store_values Preserves
  store_values-agrees set [] any s p = refl
  store_values-agrees set (v ∷ vs) any s p =
      bind-agrees (store_one cfg api a set v) (store_one cfg api b set v)
        (λ _. store_values cfg api a set vs true) (λ _. store_values cfg api b set vs true) s
        (store_one-agrees cfg api on P a b agrees set v s p)
        (store_one-Preserves cfg api a P keeps set v s p)
        (λ _ t q. store_values-agrees set vs true t q)

  store_sets-agrees :
      (sets : List PmValueSet) (any : Bool) (s : Pmda S)
      → P s
      → store_sets cfg api a sets any s ≡ store_sets cfg api b sets any s
  unfolding store_sets Preserves
  store_sets-agrees [] any s p = refl
  store_sets-agrees (set ∷ sets) any s p =
      bind-agrees (store_values cfg api a set set.vlist any)
        (store_values cfg api b set set.vlist any) (store_sets cfg api a sets)
        (store_sets cfg api b sets) s (store_values-agrees set set.vlist any s p)
        (store_values-Preserves cfg api a P keeps set set.vlist any s p)
        (λ any' t q. store_sets-agrees sets any' t q)

  store_end-same :
      (code : ℤ) (x : Result Bool × Pmda S)
      → store_end cfg api a code x ≡ store_end cfg api b code x
  unfolding store_end
  store_end-same code (ok true, s) = refl
  store_end-same code (ok false, s) = refl
  store_end-same code (err e, s) = refl

  pub on_store-agrees :
      (code : ℤ) (sets : List PmValueSet) (s : Pmda S)
      → P s
      → on_store cfg api a code sets s ≡ on_store cfg api b code sets s
  unfolding on_store
  on_store-agrees code sets s p =
      store_end-same code _
      ∙ ap (store_end cfg api b code) (
          store_sets-agrees sets false _
            (keeps.notify_keeps (entry log_info (codes "on store")) s p))

  pub on_fetch-agrees :
      (rest : Pmda S → Result ℤ × Pmda S) (s : Pmda S) → P s → on_fetch a rest s ≡ on_fetch b rest s
  unfolding on_fetch
  on_fetch-agrees rest s p = ap (fetch_begun rest) (agrees.begin_agrees s p)

  through_instance-agrees :
      (m n : Pmda S → Result ℤ × Pmda S) (p : Process S)
      → ((s : Pmda S) → P s → m s ≡ n s)
      → HasInstance P p
      → through_instance m p ≡ through_instance n p
  unfolding HasInstance
  through_instance-agrees m n p same (s, here, holds) =
      through_instance-some m p s here
      ∙ ap (λ x. some (x.0, record p { instance_ = some x.1 })) (same s holds)
      ∙ sym (through_instance-some n p s here)

  module _ (lib : Defaults) where
    handled-agrees :
        (r : Request) (p : Process S)
        → HasInstance P p
        → handled cfg api lib a r p ≡ handled cfg api lib b r p
    unfolding callback_attribute callback_children callback_desc callback_fetch
        callback_fetch_callback callback_instance callback_name callback_pmid callback_profile
        callback_store callback_text
    handled-agrees (profile prof) p has = refl
    handled-agrees (fetch pmids) p has =
        through_instance-agrees _ _ p (on_fetch-agrees (λ s. (ok (lib.pmda_fetch pmids), s))) has
    handled-agrees (desc id) p has = refl
    handled-agrees (instance_ indom inst n) p has = refl
    handled-agrees (text ident type) p has = refl
    handled-agrees (store sets) p has =
        through_instance-agrees _ _ p
          (λ s h. ap (λ x. (ok x.0, x.1)) (on_store-agrees (lib.pmda_store sets) sets s h)) has
    handled-agrees (pmid n) p has = refl
    handled-agrees (name id) p has = refl
    handled-agrees (children n traverse) p has = refl
    handled-agrees (attribute ctx attr value length) p has = refl
    handled-agrees (fetch_callback mdesc inst) p has =
        through_instance-agrees _ _ p
          (λ s h.
            ap (λ x. (ok x.0.0, x.1))
              (on_fetch_callback-agrees cfg api on P a b agrees mdesc inst s h))
          has

    from_version-same {ν} :
        {F : Type ν} (c : Bool) (g g' : F) (k : F → Callback S) (f : Callback S)
        → applied (if c then some g else none) k ≡ some f
        → applied (if c then some g' else none) k ≡ some (k g')
    from_version-same true g g' k f e = refl
    from_version-same false g g' k f e = cc

    requested-same :
        (r : Request) (f : Callback S)
        → requested (set_callbacks cfg api lib a no_callbacks) r ≡ some f
        → requested (set_callbacks cfg api lib b no_callbacks) r ≡ some (handled cfg api lib b r)
    unfolding set_callbacks
    requested-same (profile prof) f e = refl
    requested-same (fetch pmids) f e = refl
    requested-same (desc id) f e = refl
    requested-same (instance_ indom inst n) f e = refl
    requested-same (text ident type) f e = refl
    requested-same (store sets) f e = refl
    requested-same (pmid n) f e =
        from_version-same (leb 4 cfg.interface_version) (callback_pmid cfg api lib a)
          (callback_pmid cfg api lib b) (λ g. g n) f e
    requested-same (name id) f e =
        from_version-same (leb 4 cfg.interface_version) (callback_name cfg api lib a)
          (callback_name cfg api lib b) (λ g. g id) f e
    requested-same (children n traverse) f e =
        from_version-same (leb 4 cfg.interface_version) (callback_children cfg api lib a)
          (callback_children cfg api lib b) (λ g. g n traverse) f e
    requested-same (attribute ctx attr value length) f e =
        from_version-same (leb 6 cfg.interface_version) (callback_attribute cfg api lib a)
          (callback_attribute cfg api lib b) (λ g. g ctx attr value length) f e
    requested-same (fetch_callback mdesc inst) f e = refl

-- What an agent answers, another agent answers too, with the same members, where the two agree on
-- members that satisfy `P` and the first keeps `P`.
pub Serves-replayed {ℓ κ μ ν} :
    {S : Type ℓ} {A : Type κ} {W : Type ν} (cfg : Config) (api : Pmapi)
    → cfg.no_id_validity_checks ≡ false
    → (lib : Defaults) (P : Pmda S → Type μ) (a b : W → Agent S A) → ((w : W) → Keeps P (a w))
    → ((w : W) → Agrees api P (a w) (b w))
    → (p p' : Process S) (rs : List (Request × Result ℤ)) → Serves cfg api lib a p rs p'
    → HasInstance P p
    → Serves cfg api lib b p rs p'
unfolding IsKept
Serves-replayed cfg api on lib P a b keeps agrees p p' _ idle has = idle
Serves-replayed cfg api on lib P a b keeps agrees p p' _
      (next w {p' = q} {r} {f} {answer} given ran rest) has =
    let run = ap (λ g. g p) (requested-handled cfg api lib (a w) r f given) ∙ ran in
    next w (requested-same cfg api on P (a w) (b w) (keeps w) (agrees w) lib r f given)
      (sym (handled-agrees cfg api on P (a w) (b w) (keeps w) (agrees w) lib r p has) ∙ run)
      (Serves-replayed cfg api on lib P a b keeps agrees q p' _ rest
        (handled-IsKept cfg api lib (a w) P (keeps w) r p q answer run has))
