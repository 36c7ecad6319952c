-- ===== src/Pmda/Serving.antt =====
-- Sequences of callbacks through the table that set_callbacks fills (include/pcp-cpp/pmda.hpp).
use mathlib.Core.Option.{some-injective}
use pcp_pmda_cpp.Base.{
  ℕ, ◌≡◌, refl, sym, ◌∙◌, ap, leb, if◌then◌else◌, Bool, true, false, Text, List, [], ◌∷◌, Option,
  none, some,
}
use pcp_pmda_cpp.Base.Int.{ℤ}
use pcp_pmda_cpp.Pcp.{Pmapi}
use pcp_pmda_cpp.Exception.{Result}
use pcp_pmda_cpp.Pmda.State.{Config, Pmda, Agent}
use pcp_pmda_cpp.Pmda.Fetch.{PmdaMetric}
use pcp_pmda_cpp.Pmda.Store.{PmValueSet}
use pcp_pmda_cpp.Pmda.LifeCycle.{Process, get_instance, set_instance}
use pcp_pmda_cpp.Pmda.Callbacks.{
  Defaults, Callback, CallbackTable, through_instance, set_callbacks, callback_attribute,
  callback_children, callback_desc, callback_fetch, callback_fetch_callback, callback_instance,
  callback_name, callback_pmid, callback_profile, callback_store, callback_text,
}
use pcp_pmda_cpp.Pmda.Preserves.{
  Keeps, Preserves, Preserves-reads, on_fetch-Preserves, on_fetch_callback-Preserves,
  on_store-Preserves, on_text-Preserves,
}

-- What libpcp_pmda calls, with the arguments. The calls that pmdaFetch makes of the fetch callback
-- are requests that follow the fetch.
pub data Request : Type 0 where
  profile : ℕ → Request
  fetch : List ℕ → Request
  desc : ℕ → Request
  instance_ : ℕ → ℤ → Text → Request
  text : ℕ → ℕ → Request
  store : List PmValueSet → Request
  pmid : Text → Request
  name : ℕ → Request
  children : Text → ℤ → Request
  attribute : ℤ → ℤ → Text → ℤ → Request
  fetch_callback : PmdaMetric → ℕ → Request

abbrev pub applied {ℓ κ} : {F : Type ℓ} {B : Type κ} → Option F → (F → B) → Option B
applied none k = none
applied (some f) k = some (k f)

-- The callback that the table has for a request.
abbrev pub requested {ℓ} : {S : Type ℓ} → CallbackTable S → Request → Option (Callback S)
requested t (profile prof) = applied t.profile (λ f. f prof)
requested t (fetch pmids) = applied t.fetch (λ f. f pmids)
requested t (desc id) = applied t.desc (λ f. f id)
requested t (instance_ indom inst n) = applied t.instance_ (λ f. f indom inst n)
requested t (text ident type) = applied t.text (λ f. f ident type)
requested t (store sets) = applied t.store (λ f. f sets)
requested t (pmid n) = applied t.pmid (λ f. f n)
requested t (name id) = applied t.name (λ f. f id)
requested t (children n traverse) = applied t.children (λ f. f n traverse)
requested t (attribute ctx attr value length) = applied t.attribute (λ f. f ctx attr value length)
requested t (fetch_callback mdesc inst) = applied t.fetch_callback (λ f. f mdesc inst)

-- The table before set_callbacks.
abbrev pub no_callbacks {ℓ} : {S : Type ℓ} → CallbackTable S
no_callbacks = record {
  profile = none;
  fetch = none;
  desc = none;
  instance_ = none;
  text = none;
  store = none;
  pmid = none;
  name = none;
  children = none;
  attribute = none;
  fetch_callback = none;
}

-- A process with an instance that satisfies `P`.
unfoldable pub HasInstance {ℓ μ} : {S : Type ℓ} → (Pmda S → Type μ) → Process S → Type (ℓ ⊔ μ)
HasInstance {S} P p = (s : Pmda S) × (p.instance_ ≡ some s) × P s

pub through_instance-some {ℓ} :
    {S : Type ℓ} (m : Pmda S → Result ℤ × Pmda S) (p : Process S) (s : Pmda S)
    → p.instance_ ≡ some s
    → through_instance m p ≡ some ((m s).0, record p { instance_ = some (m s).1 })
unfolding through_instance get_instance set_instance
through_instance-some m p s here = rw here refl

module _ {ℓ κ} {S : Type ℓ} {A : Type κ} (cfg : Config) (api : Pmapi) (lib : Defaults)
    (agent : Agent S A) where
  abbrev pub handled : Request → Callback S
  handled (profile prof) = callback_profile cfg api lib agent prof
  handled (fetch pmids) = callback_fetch cfg api lib agent pmids
  handled (desc id) = callback_desc cfg api lib agent id
  handled (instance_ indom inst n) = callback_instance cfg api lib agent indom inst n
  handled (text ident type) = callback_text cfg api lib agent ident type
  handled (store sets) = callback_store cfg api lib agent sets
  handled (pmid n) = callback_pmid cfg api lib agent n
  handled (name id) = callback_name cfg api lib agent id
  handled (children n traverse) = callback_children cfg api lib agent n traverse
  handled (attribute ctx attr value length) =
      callback_attribute cfg api lib agent ctx attr value length
  handled (fetch_callback mdesc inst) = callback_fetch_callback cfg api lib agent mdesc inst

  from_version {ν} :
      {F : Type ν} (b : Bool) (g : F) (k : F → Callback S) (f : Callback S)
      → applied (if b then some g else none) k ≡ some f
      → k g ≡ f
  from_version true g k f e = some-injective (k g) f e
  from_version false g k f e = cc

  pub requested-handled :
      (r : Request) (f : Callback S)
      → requested (set_callbacks cfg api lib agent no_callbacks) r ≡ some f
      → handled r ≡ f
  unfolding set_callbacks
  requested-handled (profile prof) f e = some-injective _ f e
  requested-handled (fetch pmids) f e = some-injective _ f e
  requested-handled (desc id) f e = some-injective _ f e
  requested-handled (instance_ indom inst n) f e = some-injective _ f e
  requested-handled (text ident type) f e = some-injective _ f e
  requested-handled (store sets) f e = some-injective _ f e
  requested-handled (pmid n) f e =
      from_version (leb 4 cfg.interface_version) (callback_pmid cfg api lib agent) (λ g. g n) f e
  requested-handled (name id) f e =
      from_version (leb 4 cfg.interface_version) (callback_name cfg api lib agent) (λ g. g id) f e
  requested-handled (children n traverse) f e =
      from_version (leb 4 cfg.interface_version) (callback_children cfg api lib agent)
        (λ g. g n traverse) f e
  requested-handled (attribute ctx attr value length) f e =
      from_version (leb 6 cfg.interface_version) (callback_attribute cfg api lib agent)
        (λ g. g ctx attr value length) f e
  requested-handled (fetch_callback mdesc inst) f e = some-injective _ f e

  module _ {μ} (P : Pmda S → Type μ) where
    unfoldable pub IsKept : Callback S → Type (ℓ ⊔ μ)
    IsKept f =
        (p p' : Process S) (answer : Result ℤ)
        → f p ≡ some (answer, p')
        → HasInstance P p
        → HasInstance P p'

    through_instance-IsKept :
        (m : Pmda S → Result ℤ × Pmda S) → Preserves P m → IsKept (through_instance m)
    unfolding HasInstance IsKept Preserves
    through_instance-IsKept m h p p' answer e (s, here, holds) =
        let moved = some-injective _ _ (sym (through_instance-some m p s here) ∙ e) in
        ((m s).1, sym (ap (λ x. x.1.instance_) moved), h s holds)

    forwarded-IsKept : (r : Result ℤ) → IsKept (through_instance (λ s. (r, s)))
    forwarded-IsKept r = through_instance-IsKept _ (Preserves-reads P (λ s. r))

    module _ (keeps : Keeps P agent) where
      pub handled-IsKept : (r : Request) → IsKept (handled r)
      unfolding callback_attribute callback_children callback_desc callback_fetch
          callback_fetch_callback callback_instance callback_name callback_pmid callback_profile
          callback_store callback_text Preserves
      handled-IsKept (profile prof) = forwarded-IsKept _
      handled-IsKept (fetch pmids) =
          through_instance-IsKept _ (on_fetch-Preserves cfg api agent P keeps _)
      handled-IsKept (desc id) = forwarded-IsKept _
      handled-IsKept (instance_ indom inst n) = forwarded-IsKept _
      handled-IsKept (text ident type) =
          through_instance-IsKept _ (on_text-Preserves cfg api agent P keeps _ ident type)
      handled-IsKept (store sets) =
          through_instance-IsKept _ (on_store-Preserves cfg api agent P keeps _ sets)
      handled-IsKept (pmid n) = forwarded-IsKept _
      handled-IsKept (name id) = forwarded-IsKept _
      handled-IsKept (children n traverse) = forwarded-IsKept _
      handled-IsKept (attribute ctx attr value length) = forwarded-IsKept _
      handled-IsKept (fetch_callback mdesc inst) =
          through_instance-IsKept _ (on_fetch_callback-Preserves cfg api agent P keeps mdesc inst)

-- The agent's methods depend on what its surroundings tell at the time of a request.
module _ {ℓ κ ν} {S : Type ℓ} {A : Type κ} {W : Type ν} (cfg : Config) (api : Pmapi)
    (lib : Defaults) (agent : W → Agent S A) where
  -- A process, the requests that come in, and what each returns.
  pub data Serves : Process S → List (Request × Result ℤ) → Process S → Type (ℓ ⊔ ν) where
    idle : {p : Process S} → Serves p [] p
    next :
        (w : W) {p p' p'' : Process S} {r : Request} {f : Callback S} {answer : Result ℤ}
        {rs : List (Request × Result ℤ)}
        → requested (set_callbacks cfg api lib (agent w) no_callbacks) r ≡ some f
        → f p ≡ some (answer, p')
        → Serves p' rs p''
        → Serves p ((r, answer) ∷ rs) p''

  -- A property of the members that notify, and begin_fetch_values, fetch_value and store_value of
  -- the agent keep, whatever the surroundings tell, is kept by every sequence of requests that
  -- libpcp_pmda makes through the table that set_callbacks filled, whatever they return, and the
  -- process still has an instance.
  pub Serves-HasInstance {μ} :
      (P : Pmda S → Type μ) (p p' : Process S) (rs : List (Request × Result ℤ))
      → ((w : W) → Keeps P (agent w))
      → Serves p rs p'
      → HasInstance P p
      → HasInstance P p'
  unfolding IsKept
  Serves-HasInstance P p p' _ keeps idle has = has
  Serves-HasInstance P p p' _ keeps (next w {p' = q} {r} {f} {answer} given ran rest) has =
      Serves-HasInstance P q p' _ keeps rest (
        handled-IsKept cfg api lib (agent w) P (keeps w) r p q answer
          (ap (λ g. g p) (requested-handled cfg api lib (agent w) r f given) ∙ ran) has)
