-- ===== src/CommandLine/Exports.antt =====
-- When an export option was given (include/pcp-cpp/pmda.hpp).
use pcp_pmda_cpp.Base.{Bool, true, false, ◌||◌, ◌≡◌, refl, is_some, Text, codes}
use pcp_pmda_cpp.Map.{find, text_ord}
use pcp_pmda_cpp.Pcp.{Pmapi}
use pcp_pmda_cpp.Pmda.State.{Method, Agent, ◌>>=◌, ◌>>◌, pure, lift}
use pcp_pmda_cpp.Export.Files.{Identity, export_domain_header, export_pmns_root}
use pcp_pmda_cpp.Export.Pmns.{export_pmns_data}
use pcp_pmda_cpp.Export.Help.{export_help_text, export_support_files}
use pcp_pmda_cpp.CommandLine.Defs.{Options, as_texts}
use pcp_pmda_cpp.CommandLine.Parse.{describe_once, export_each, export_option, export_options}
use pcp_pmda_cpp.CommandLine.Returns.{
  Returns, Returns-bind, Returns-pure, Returns-any, Returns-given,
}

abbrev or_given : Options → Text → Bool → Bool
or_given o name b = is_some (find name o) || b

-- Whether one of the five was.
abbrev pub asks_export : Options → Bool
asks_export o = or_given o (codes "export-root") (
    or_given o (codes "export-pmns") (
      or_given o (codes "export-help")
        (or_given o (codes "export-domain") (or_given o (codes "export-all") false))))

module _ {ℓ κ} {S : Type ℓ} {A : Type κ} (agent : Agent S A) (o : Options) where
  export_option-given :
      (name : Text) (export : Text → Method S (Unit {0})) (exported was : Bool)
      → exported ≡ was
      → Returns (export_option agent o name export exported) (λ b. b ≡ or_given o name was)
  unfolding export_option
  export_option-given name export exported was h =
      Returns-given S o name exported _ _ (λ e. rw e h)
        (λ v e.
          Returns-bind (describe_once agent >> lift (as_texts v.value) >>= export_each export)
            (λ u. pure true) _ _ (Returns-any _) (λ u t. Returns-pure S true _ (rw e refl)))

  pub export_options-asks :
      (api : Pmapi) (can_open : Text → Bool) (id : Identity)
      → Returns (export_options api can_open id agent o) (λ b. b ≡ asks_export o)
  unfolding export_options
  export_options-asks api can_open id =
      Returns-bind _
        (export_option agent o (codes "export-root") (export_pmns_root api can_open id)) _ _
        (Returns-bind _
          (export_option agent o (codes "export-pmns") (export_pmns_data api can_open id)) _ _
          (Returns-bind _
            (export_option agent o (codes "export-help") (export_help_text api can_open id)) _ _
            (Returns-bind _
              (export_option agent o (codes "export-domain") (export_domain_header api can_open id))
              _ _
              (export_option-given (codes "export-all") (export_support_files api can_open id) false
                false refl)
              (λ b h. export_option-given _ _ b _ h))
            (λ b h. export_option-given _ _ b _ h))
          (λ b h. export_option-given _ _ b _ h))
        (λ b h. export_option-given _ _ b _ h)
