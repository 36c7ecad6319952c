-- ===== src/Pmda/Callbacks.antt =====
-- The callbacks that set_callbacks gives to libpcp_pmda, and the methods that only pass their
-- arguments on (include/pcp-cpp/pmda.hpp).
use pcp_pmda_cpp.Base.{ℕ, leb, if◌then◌else◌, Text, List, Option, none, some}
use pcp_pmda_cpp.Base.Int.{ℤ}
use pcp_pmda_cpp.Pcp.{Pmapi}
use pcp_pmda_cpp.Exception.{Result, ok}
use pcp_pmda_cpp.Pmda.State.{Config, Pmda, Agent}
use pcp_pmda_cpp.Pmda.Fetch.{PmdaMetric, on_fetch, on_fetch_callback}
use pcp_pmda_cpp.Pmda.Store.{PmValueSet, on_store}
use pcp_pmda_cpp.Pmda.HelpText.{on_text}
use pcp_pmda_cpp.Pmda.LifeCycle.{Process, get_instance, set_instance}

-- What the functions of libpcp_pmda return that handle a callback by default; what they write is
-- theirs.
pub record Defaults : Type 0 where
  pub pmda_attribute : ℤ → ℤ → Text → ℤ → ℤ
  pub pmda_children : Text → ℤ → ℤ
  pub pmda_desc : ℕ → ℤ
  pub pmda_fetch : List ℕ → ℤ
  pub pmda_instance : ℕ → ℤ → Text → ℤ
  pub pmda_name : ℕ → ℤ
  pub pmda_pmid : Text → ℤ
  pub pmda_profile : ℕ → ℤ
  pub pmda_store : List PmValueSet → ℤ
  pub pmda_text : ℕ → ℕ → ℤ × Option Text

module _ (lib : Defaults) where
  unfoldable pub on_attribute : ℤ → ℤ → Text → ℤ → ℤ
  on_attribute ctx attr value length = lib.pmda_attribute ctx attr value length

  unfoldable pub on_children : Text → ℤ → ℤ
  on_children name traverse = lib.pmda_children name traverse

  unfoldable pub on_desc : ℕ → ℤ
  on_desc pmid = lib.pmda_desc pmid

  unfoldable pub on_instance : ℕ → ℤ → Text → ℤ
  on_instance indom inst name = lib.pmda_instance indom inst name

  unfoldable pub on_name : ℕ → ℤ
  on_name pmid = lib.pmda_name pmid

  unfoldable pub on_pmid : Text → ℤ
  on_pmid name = lib.pmda_pmid name

  unfoldable pub on_profile : ℕ → ℤ
  on_profile prof = lib.pmda_profile prof

-- A callback on the process: it is `none` where get_instance() is NULL, since it goes through it.
abbrev pub Callback {ℓ} : Type ℓ → Type ℓ
Callback S = Process S → Option (Result ℤ × Process S)

-- `get_instance()->...`
unfoldable pub through_instance {ℓ} : {S : Type ℓ} → (Pmda S → Result ℤ × Pmda S) → Callback S
unfolding get_instance set_instance
through_instance f p = elim (get_instance p) [
  | none ↦ none
  | some s ↦ some ((f s).0, (set_instance (some (f s).1) p).1)
]

-- The function pointers in pmdaInterface; NULL is `none`.
pub record CallbackTable {ℓ} (S : Type ℓ) : Type ℓ where
  pub profile : Option (ℕ → Callback S)
  pub fetch : Option (List ℕ → Callback S)
  pub desc : Option (ℕ → Callback S)
  pub instance_ : Option (ℕ → ℤ → Text → Callback S)
  pub text : Option (ℕ → ℕ → Callback S)
  pub store : Option (List PmValueSet → Callback S)
  pub pmid : Option (Text → Callback S)
  pub name : Option (ℕ → Callback S)
  pub children : Option (Text → ℤ → Callback S)
  pub attribute : Option (ℤ → ℤ → Text → ℤ → Callback S)
  pub fetch_callback : Option (PmdaMetric → ℕ → Callback S)

module _ {ℓ κ} {S : Type ℓ} {A : Type κ} (cfg : Config) (api : Pmapi) (lib : Defaults)
    (agent : Agent S A) where
  unfoldable pub callback_attribute : ℤ → ℤ → Text → ℤ → Callback S
  unfolding through_instance on_attribute
  callback_attribute ctx attr value length =
      through_instance (λ s. (ok (on_attribute lib ctx attr value length), s))

  unfoldable pub callback_children : Text → ℤ → Callback S
  unfolding through_instance on_children
  callback_children name traverse = through_instance (λ s. (ok (on_children lib name traverse), s))

  unfoldable pub callback_desc : ℕ → Callback S
  unfolding through_instance on_desc
  callback_desc pmid = through_instance (λ s. (ok (on_desc lib pmid), s))

  unfoldable pub callback_fetch : List ℕ → Callback S
  unfolding through_instance on_fetch
  callback_fetch pmids = through_instance (on_fetch agent (λ s. (ok (lib.pmda_fetch pmids), s)))

  -- What is written to `*avp` and `*buffer` is not kept.
  unfoldable pub callback_fetch_callback : PmdaMetric → ℕ → Callback S
  unfolding through_instance on_fetch_callback
  callback_fetch_callback mdesc inst =
      through_instance
        (λ s. let ((code, _), s') = on_fetch_callback cfg api agent mdesc inst s in (ok code, s'))

  unfoldable pub callback_instance : ℕ → ℤ → Text → Callback S
  unfolding through_instance on_instance
  callback_instance indom inst name =
      through_instance (λ s. (ok (on_instance lib indom inst name), s))

  unfoldable pub callback_name : ℕ → Callback S
  unfolding through_instance on_name
  callback_name pmid = through_instance (λ s. (ok (on_name lib pmid), s))

  unfoldable pub callback_pmid : Text → Callback S
  unfolding through_instance on_pmid
  callback_pmid name = through_instance (λ s. (ok (on_pmid lib name), s))

  unfoldable pub callback_profile : ℕ → Callback S
  unfolding through_instance on_profile
  callback_profile prof = through_instance (λ s. (ok (on_profile lib prof), s))

  unfoldable pub callback_store : List PmValueSet → Callback S
  unfolding through_instance on_store
  callback_store sets =
      through_instance
        (λ s. let (code, s') = on_store cfg api agent (lib.pmda_store sets) sets s in (ok code, s'))

  unfoldable pub callback_text : ℕ → ℕ → Callback S
  unfolding through_instance on_text
  callback_text ident type = through_instance (λ s.
      let ((code, _), s') = on_text api (lib.pmda_text ident type) ident type s in (ok code, s'))

  unfoldable pub set_callbacks : CallbackTable S → CallbackTable S
  unfolding callback_attribute callback_children callback_desc callback_fetch
      callback_fetch_callback callback_instance callback_name callback_pmid callback_profile
      callback_store callback_text
  set_callbacks t = record t {
    profile = some callback_profile;
    fetch = some callback_fetch;
    desc = some callback_desc;
    instance_ = some callback_instance;
    text = some callback_text;
    store = some callback_store;
    pmid = if leb 4 cfg.interface_version then some callback_pmid else t.pmid;
    name = if leb 4 cfg.interface_version then some callback_name else t.name;
    children = if leb 4 cfg.interface_version then some callback_children else t.children;
    attribute = if leb 6 cfg.interface_version then some callback_attribute else t.attribute;
    fetch_callback = some callback_fetch_callback;
  }
