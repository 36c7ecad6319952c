-- ===== src/Pmda/StoreLaws.antt =====
-- on_store against a list of single stores (include/pcp-cpp/pmda.hpp).
use pcp_pmda_cpp.Base.{
  ◌≡◌, ◌≢◌, refl, sym, ap, subst, ◌∙◌, codes, List, [], ◌∷◌, ◌++◌, append_assoc, Bool, true, false,
}
use pcp_pmda_cpp.Base.Int.{ℤ, pos}
use pcp_pmda_cpp.Pcp.{Pmapi}
use pcp_pmda_cpp.Exception.{Result, ok, err, Thrown}
use pcp_pmda_cpp.Pmda.State.{Config, Pmda, Method, Agent, notify, entry, log_info}
use pcp_pmda_cpp.Pmda.Checked.{caught}
use pcp_pmda_cpp.Pmda.Store.{
  PmValue, PmValueSet, store_one, store_values, store_sets, store_end, on_store,
}

-- A request, value by value, in the order of the loops.
abbrev pub Request : Type 0
Request = PmValueSet × PmValue

abbrev pub requests_of : PmValueSet → List PmValue → List Request
requests_of set [] = []
requests_of set (v ∷ vs) = (set, v) ∷ requests_of set vs

abbrev pub requests : List PmValueSet → List Request
requests [] = []
requests (set ∷ sets) = requests_of set set.vlist ++ requests sets

module _ {ℓ κ} {S : Type ℓ} {A : Type κ} (cfg : Config) (api : Pmapi) (agent : Agent S A) where
  -- `AllStored rs s t`: the values `rs` are stored one after the other, from `s` to `t`.
  pub data AllStored : List Request → Pmda S → Pmda S → Type (ℓ ⊔ κ) where
    nothing : (s : Pmda S) → AllStored [] s s
    stored :
        {r : Request} {rs : List Request} {s t u : Pmda S}
        → store_one cfg api agent r.0 r.1 s ≡ (ok tt, t)
        → AllStored rs t u
        → AllStored (r ∷ rs) s u

  -- The value at which a request fails, and what had been done by then.
  pub record FailedAt (rs : List Request) (s : Pmda S) (e : Thrown) (t : Pmda S)
      : Type (ℓ ⊔ κ) where
    pub before : List Request
    pub at : Request
    pub after : List Request
    pub state : Pmda S
    pub split : rs ≡ before ++ at ∷ after
    pub all_before : AllStored before s state
    pub failure : store_one cfg api agent at.0 at.1 state ≡ (err e, t)

abbrev any_of : Bool → List Request → Bool
any_of b [] = b
any_of b (_ ∷ _) = true

any_of-append : (b : Bool) (xs ys : List Request) → any_of (any_of b xs) ys ≡ any_of b (xs ++ ys)
any_of-append b [] ys = refl
any_of-append b (x ∷ xs) [] = refl
any_of-append b (x ∷ xs) (y ∷ ys) = refl

module _ {ℓ κ} {S : Type ℓ} {A : Type κ} (cfg : Config) (api : Pmapi) (agent : Agent S A) where
  -- What the loops have done when they end.
  abbrev Ran : List Request → Pmda S → Bool → Result Bool × Pmda S → Type (ℓ ⊔ κ)
  Ran rs s b (ok b', t) = (b' ≡ b) × AllStored cfg api agent rs s t
  Ran rs s b (err e, t) = FailedAt cfg api agent rs s e t

  Ran-prepend :
      (r : Request) (rs : List Request) (s t : Pmda S) (b : Bool) (x : Result Bool × Pmda S)
      → store_one cfg api agent r.0 r.1 s ≡ (ok tt, t)
      → Ran rs t b x
      → Ran (r ∷ rs) s b x
  Ran-prepend r rs s t b (ok b', u) e h = (h.0, stored e h.1)
  Ran-prepend r rs s t b (err er, u) e h = record {
    before = r ∷ h.before;
    at = h.at;
    after = h.after;
    state = h.state;
    split = ap (◌∷◌ r) h.split;
    all_before = stored e h.all_before;
    failure = h.failure;
  }

  Ran-append :
      (xs ys : List Request) (s t : Pmda S) (b : Bool) (x : Result Bool × Pmda S)
      → AllStored cfg api agent xs s t
      → Ran ys t b x
      → Ran (xs ++ ys) s b x
  Ran-append [] ys s t b x (nothing _) h = h
  Ran-append (r ∷ xs) ys s t b x (stored {t = u} e a) h =
      Ran-prepend r (xs ++ ys) s u b x e (Ran-append xs ys u t b x a h)

  FailedAt-append :
      (xs ys : List Request) (s : Pmda S) (e : Thrown) (t : Pmda S)
      → FailedAt cfg api agent xs s e t
      → FailedAt cfg api agent (xs ++ ys) s e t
  FailedAt-append xs ys s e t f = record {
    before = f.before;
    at = f.at;
    after = f.after ++ ys;
    state = f.state;
    split = ap (λ l. l ++ ys) f.split ∙ append_assoc f.before (f.at ∷ f.after) ys;
    all_before = f.all_before;
    failure = f.failure;
  }

  -- One round of the inner loop, by what the store returned.
  Ran-value :
      (r : Request) (rs : List Request) (s : Pmda S) (b : Bool) (k : Method S Bool)
      (x : Result (Unit {0}) × Pmda S)
      → store_one cfg api agent r.0 r.1 s ≡ x
      → ((t : Pmda S) → Ran rs t b (k t))
      → Ran (r ∷ rs) s b (elim x.0 [ ok _ ↦ k x.1 | err e ↦ (err e, x.1) ])
  Ran-value r rs s b k (ok u, t) e h = Ran-prepend r rs s t b (k t) e (h t)
  Ran-value r rs s b k (err er, t) e h = record {
    before = [];
    at = r;
    after = rs;
    state = s;
    split = refl;
    all_before = nothing s;
    failure = e;
  }

  store_values-Ran :
      (set : PmValueSet) (vs : List PmValue) (b : Bool) (s : Pmda S)
      → Ran
          (requests_of set vs)
          s
          (any_of b (requests_of set vs))
          (store_values cfg api agent set vs b s)
  unfolding store_values
  store_values-Ran set [] b s = (refl, nothing s)
  store_values-Ran set (v ∷ vs) b s =
      Ran-value (set, v) (requests_of set vs) s true (store_values cfg api agent set vs true) _ refl
        (λ t.
          subst (λ c. Ran (requests_of set vs) t c (store_values cfg api agent set vs true t))
            (any_of_true (requests_of set vs)) (store_values-Ran set vs true t))
    where
      any_of_true : (rs : List Request) → any_of true rs ≡ true
      any_of_true [] = refl
      any_of_true (_ ∷ _) = refl

  Ran-set :
      (xs ys : List Request) (s : Pmda S) (b c : Bool) (k : Bool → Method S Bool)
      (x : Result Bool × Pmda S)
      → Ran xs s b x
      → ((t : Pmda S) → Ran ys t c (k b t))
      → Ran (xs ++ ys) s c (elim x.0 [ ok a ↦ k a x.1 | err e ↦ (err e, x.1) ])
  Ran-set xs ys s b c k (ok b', t) h g =
      Ran-append xs ys s t c (k b' t) h.1 (subst (λ a. Ran ys t c (k a t)) (sym h.0) (g t))
  Ran-set xs ys s b c k (err e, t) h g = FailedAt-append xs ys s e t h

  store_sets-Ran :
      (sets : List PmValueSet) (b : Bool) (s : Pmda S)
      → Ran (requests sets) s (any_of b (requests sets)) (store_sets cfg api agent sets b s)
  unfolding store_sets
  store_sets-Ran [] b s = (refl, nothing s)
  store_sets-Ran (set ∷ sets) b s =
      Ran-set (requests_of set set.vlist) (requests sets) s (any_of b (requests_of set set.vlist)) _
        (store_sets cfg api agent sets) _ (store_values-Ran set set.vlist b s)
        (λ t.
          subst
            (λ c.
              Ran (requests sets) t c
                (store_sets cfg api agent sets (any_of b (requests_of set set.vlist)) t))
            (any_of-append b (requests_of set set.vlist) (requests sets))
            (store_sets-Ran sets (any_of b (requests_of set set.vlist)) t))

  -- The three ends of on_store, for the requests and the result.
  pub data Ended (rs : List Request) (pmda_store : ℤ) (s : Pmda S) (r : ℤ × Pmda S)
      : Type (ℓ ⊔ κ) where
    nothing_given : rs ≡ [] → r ≡ (pmda_store, s) → Ended rs pmda_store s r
    all_stored :
        (t : Pmda S)
        → rs ≢ []
        → AllStored cfg api agent rs s t
        → r ≡ (pos 0, t)
        → Ended rs pmda_store s r
    failed :
        (e : Thrown) (t : Pmda S)
        → FailedAt cfg api agent rs s e t
        → r ≡ caught api e t
        → Ended rs pmda_store s r

  Ended-store_end :
      (rs : List Request) (pmda_store : ℤ) (s : Pmda S) (x : Result Bool × Pmda S)
      → Ran rs s (any_of false rs) x
      → Ended rs pmda_store s (store_end cfg api agent pmda_store x)
  unfolding store_end
  Ended-store_end [] pmda_store s (ok true, t) (e, a) = cc
  Ended-store_end [] pmda_store s (ok false, t) (e, nothing _) = nothing_given refl refl
  Ended-store_end (r ∷ rs) pmda_store s (ok true, t) (e, a) = all_stored t (λ p. cc) a refl
  Ended-store_end (r ∷ rs) pmda_store s (ok false, t) (e, a) = cc
  Ended-store_end rs pmda_store s (err e, t) h = failed e t h refl

  -- on_store takes the values of a request in order and ends in one of three ways. A request
  -- without values gives what pmdaStore returns. Where every value is stored it returns 0, with
  -- the members as the last store left them. Otherwise it stops at the first value that fails:
  -- those before it stay stored, those after it are not touched, and the exception is answered by
  -- the handlers.
  pub on_store-Ended :
      (pmda_store : ℤ) (sets : List PmValueSet) (s : Pmda S)
      → Ended
          (requests sets)
          pmda_store
          (notify (entry log_info (codes "on store")) s)
          (on_store cfg api agent pmda_store sets s)
  unfolding on_store
  on_store-Ended pmda_store sets s =
      Ended-store_end (requests sets) pmda_store _ _
        (store_sets-Ran sets false (notify (entry log_info (codes "on store")) s))
