-- ===== src/Pmda/HelpText.antt =====
-- pmda::on_text (include/pcp-cpp/pmda.hpp).
use pcp_pmda_cpp.Base.{
  ℕ, Text, c_str, codes, bit_and, ◌==◌, is_empty, Option, none, some, Bool, ◌++◌, hexadecimal,
  if◌then◌else◌, [],
}
use pcp_pmda_cpp.Base.Int.{ℤ, pos, eq_ℤ}
use pcp_pmda_cpp.Map.{find, nat_ord}
use pcp_pmda_cpp.Pcp.{Pmapi}
use pcp_pmda_cpp.Exception.{
  Result, ok, err, pcp, out_of_range, std, unknown, exception, or_out_of_range, ◌>>=◌,
}
use pcp_pmda_cpp.Metrics.Defs.{at_metric}
use pcp_pmda_cpp.Pmda.State.{Pmda, notify, entry, at_position, log_err, log_notice, log_debug}

-- PM_TEXT_PMID and PM_TEXT_INDOM, as config.hpp defines them where pcp/pmapi.h does not.
abbrev pub text_pmid : ℕ
text_pmid = 4

abbrev pub text_indom : ℕ
text_indom = 8

-- `(type & flag) == flag`
abbrev pub has_flag : ℕ → ℕ → Bool
has_flag type flag = bit_and type flag == flag

-- The text that is wanted, or the other one where it is empty.
unfoldable pub choose_text : Bool → Text → Text → Text
choose_text get_one_line short verbose =
    if get_one_line
    then (if is_empty short then verbose else short)
    else (if is_empty verbose then short else verbose)

-- `if (text.empty()) throw pcp::exception(PM_ERR_TEXT)`
unfoldable pub require_text : Pmapi → Text → Result Text
require_text api text = if is_empty text then err (pcp (exception api api.err_text [])) else ok text

module _ {ℓ} {S : Type ℓ} (api : Pmapi) where
  unfoldable pub metric_text : ℕ → Bool → Pmda S → Result Text
  metric_text ident one_line s = do
    d ← at_metric (api.id_cluster ident) (api.id_item ident) s.supported_metrics
    require_text api (choose_text one_line d.short_description d.verbose_description)

  unfoldable pub instance_text : ℕ → Bool → Pmda S → Result Text
  instance_text ident one_line s = do
    p ← or_out_of_range (find (api.indom_domain ident) s.instance_domains)
    info ← or_out_of_range (find (api.indom_serial ident) (s.heap p).instances)
    require_text api (choose_text one_line info.short_description info.verbose_description)

  -- A copy of the text is answered, by strdup, which ends at the first NUL. Where it is not given, pmdaText takes over; the last handler alone returns by itself,
  -- and nothing in the block throws what it catches.
  unfoldable pub text_end : (ℤ × Option Text) → Result Text → Pmda S → (ℤ × Option Text) × Pmda S
  text_end pmda_text (ok text) s = ((pos 0, some (c_str text)), s)
  text_end pmda_text (err (pcp ex)) s = (
    pmda_text,
    if eq_ℤ ex.pm_error_code api.err_text
        then notify (at_position log_debug) s
        else notify (entry log_notice ex.message) s,
  )
  text_end pmda_text (err out_of_range) s = (pmda_text, notify (at_position log_debug) s)
  text_end pmda_text (err (std what)) s = (pmda_text, notify (entry log_notice what) s)
  text_end pmda_text (err unknown) s =
      ((api.err_generic, none), notify (entry log_err (codes "unknown exception in on_text")) s)

  -- The result with `*buffer`, where it is written; `pmda_text` is what pmdaText gives.
  unfoldable pub on_text : (ℤ × Option Text) → ℕ → ℕ → Pmda S → (ℤ × Option Text) × Pmda S
  on_text pmda_text ident type s =
      let one_line = has_flag type api.text_oneline in
      if has_flag type text_pmid
      then text_end pmda_text (metric_text ident one_line s) s
      else if has_flag type text_indom
      then text_end pmda_text (instance_text ident one_line s) s
      else (
        pmda_text,
        notify (entry log_notice (codes "unknown text type 0x" ++ hexadecimal type)) s,
      )
