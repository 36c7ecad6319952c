-- ===== src/Pmda/HelpTextLaws.antt =====
-- Which text on_text answers with (include/pcp-cpp/pmda.hpp).
use pcp_pmda_cpp.Base.{ℕ, Text, c_str, ◌≡◌, refl, Option, none, some, Bool, true, false, [], ◌∷◌}
use pcp_pmda_cpp.Base.Int.{ℤ, pos, eq_ℤ_refl}
use pcp_pmda_cpp.Map.{find, nat_ord}
use pcp_pmda_cpp.Pcp.{Pmapi}
use pcp_pmda_cpp.Exception.{ok, err, pcp, exception}
use pcp_pmda_cpp.InstanceDomain.{InstanceInfo}
use pcp_pmda_cpp.Metrics.Defs.{MetricDescription}
use pcp_pmda_cpp.Metrics.Lookup.{lookup, at_metric-lookup, at_metric-none}
use pcp_pmda_cpp.Pmda.State.{Pmda, notify, at_position, log_debug}
use pcp_pmda_cpp.Pmda.HelpText.{
  text_pmid, text_indom, has_flag, choose_text, require_text, metric_text, instance_text, text_end,
  on_text,
}

-- The help text of a kind, given both: the kind asked for, else the other, else none.
abbrev pub preferred : Text → Text → Option Text
preferred [] [] = none
preferred [] (c ∷ t) = some (c ∷ t)
preferred (c ∷ t) _ = some (c ∷ t)

abbrev pub wanted : Bool → Text → Text → Option Text
wanted true short verbose = preferred short verbose
wanted false short verbose = preferred verbose short

require-choose :
    (api : Pmapi) (one_line : Bool) (short verbose : Text)
    → require_text api (choose_text one_line short verbose) ≡ elim (wanted one_line short verbose) [
      | some t ↦ ok t
      | none ↦ err (pcp (exception api api.err_text []))
    ]
unfolding require_text choose_text
require-choose api true [] [] = refl
require-choose api true [] (c ∷ t) = refl
require-choose api true (c ∷ t) v = refl
require-choose api false [] [] = refl
require-choose api false (c ∷ t) [] = refl
require-choose api false [] (c ∷ t) = refl
require-choose api false (d ∷ u) (c ∷ t) = refl

-- The answer with a text, up to its first NUL, or what pmdaText gives, with a debug entry in the log.
abbrev pub answer {ℓ} :
    {S : Type ℓ} → (ℤ × Option Text) → Option Text → Pmda S → (ℤ × Option Text) × Pmda S
answer pmda_text (some t) s = ((pos 0, some (c_str t)), s)
answer pmda_text none s = (pmda_text, notify (at_position log_debug) s)

module _ {ℓ} {S : Type ℓ} (api : Pmapi) where
  text_end-wanted :
      (pmda_text : ℤ × Option Text) (o : Option Text) (s : Pmda S)
      → text_end api pmda_text
          (elim o [ some t ↦ ok t | none ↦ err (pcp (exception api api.err_text [])) ])
          s
        ≡ answer pmda_text o s
  unfolding text_end exception
  text_end-wanted pmda_text none s = rw (eq_ℤ_refl api.err_text)
  text_end-wanted pmda_text (some t) s = refl

  -- Asked for the text of a registered metric, on_text answers with the kind asked for, one line or
  -- verbose, or with the other kind where that is empty; where both are empty it leaves the answer
  -- to pmdaText. A text is answered up to its first NUL.
  pub on_text-metric :
      (pmda_text : ℤ × Option Text) (ident type : ℕ) (s : Pmda S) (d : MetricDescription)
      → has_flag type text_pmid ≡ true
      → lookup (api.id_cluster ident) (api.id_item ident) s.supported_metrics ≡ some d
      → on_text api pmda_text ident type s
        ≡ answer pmda_text
            (wanted (has_flag type api.text_oneline) d.short_description d.verbose_description)
            s
  unfolding on_text metric_text
  on_text-metric pmda_text ident type s d flag found =
      rw (flag, at_metric-lookup _ _ s.supported_metrics d found, require-choose)
        (text_end-wanted pmda_text _ s)

  -- Asked for the text of a metric that is not registered, it leaves the answer to pmdaText.
  pub on_text-unregistered :
      (pmda_text : ℤ × Option Text) (ident type : ℕ) (s : Pmda S)
      → has_flag type text_pmid ≡ true
      → lookup (api.id_cluster ident) (api.id_item ident) s.supported_metrics ≡ none
      → on_text api pmda_text ident type s ≡ answer pmda_text none s
  unfolding on_text metric_text text_end
  on_text-unregistered pmda_text ident type s flag missing =
      rw (flag, at_metric-none _ _ s.supported_metrics missing)

  -- Asked for the text of an instance domain, it looks the domain part of the identifier up among
  -- the agent's domains, and the serial part among that domain's instances, and answers for the
  -- instance found as for a metric.
  pub on_text-instance :
      (pmda_text : ℤ × Option Text) (ident type : ℕ) (s : Pmda S) (p : ℕ) (info : InstanceInfo)
      → has_flag type text_pmid ≡ false
      → has_flag type text_indom ≡ true
      → find (api.indom_domain ident) s.instance_domains ≡ some p
      → find (api.indom_serial ident) (s.heap p).instances ≡ some info
      → on_text api pmda_text ident type s
        ≡ answer pmda_text
            (wanted
              (has_flag type api.text_oneline)
              info.short_description
              info.verbose_description)
            s
  unfolding on_text instance_text
  on_text-instance pmda_text ident type s p info no_pmid flag found there =
      rw (no_pmid, flag, found, there, require-choose) (text_end-wanted pmda_text _ s)
