-- ===== src/Export/Files.antt =====
-- export_domain_header and export_pmns_root, and the opening and writing of a file that all the
-- exports begin with.
use pcp_pmda_cpp.Base.{Bool, Text, codes, text_eq, ◌++◌, ◌∷◌, map, to_upper, if◌then◌else◌}
use pcp_pmda_cpp.Base.Int.{ℤ, decimal_ℤ}
use pcp_pmda_cpp.Pcp.{Pmapi}
use pcp_pmda_cpp.Exception.{ok, err, pcp, exception}
use pcp_pmda_cpp.Pmda.State.{Method}

-- The virtual methods that name an agent: get_pmda_name and get_default_pmda_domain_number.
pub record Identity : Type 0 where
  pub pmda_name : Text
  pub default_domain_number : ℤ

abbrev pub endl : Text
endl = codes "\n"

abbrev pub dash : Text
dash = codes "-"

unfoldable pub upper_name : Identity → Text
unfolding to_upper
upper_name id = map to_upper id.pmda_name

-- Opens the file, unless it is "-", and writes the text; `can_open` is std::ofstream::open.
unfoldable pub write_file {ℓ} :
    {S : Type ℓ} → Pmapi → (Text → Bool) → Text → Text → Method S (Unit {0})
write_file api can_open filename content s =
    if text_eq filename dash
    then (ok tt, record s { output = (filename, content) ∷ s.output })
    else if can_open filename
    then (ok tt, record s { output = (filename, content) ∷ s.output })
    else (
      err (
          pcp (
            exception api api.err_generic (codes "failed to open file for writing: " ++ filename))),
      s,
    )

unfoldable pub domain_header : Identity → Text
unfolding upper_name
domain_header id =
    codes "/* The "
    ++ id.pmda_name
    ++ codes " PMDA's domain number. */"
    ++ endl
    ++ codes "#define "
    ++ upper_name id
    ++ codes " "
    ++ decimal_ℤ id.default_domain_number
    ++ endl

unfoldable pub export_domain_header {ℓ} :
    {S : Type ℓ} → Pmapi → (Text → Bool) → Identity → Text → Method S (Unit {0})
unfolding domain_header write_file
export_domain_header api can_open id filename = write_file api can_open filename (domain_header id)

unfoldable pub pmns_root : Identity → Text
pmns_root id =
    endl
    ++ codes "root { "
    ++ id.pmda_name
    ++ codes " }"
    ++ endl
    ++ endl
    ++ codes "#include \"pmns\""
    ++ endl
    ++ endl

unfoldable pub export_pmns_root {ℓ} :
    {S : Type ℓ} → Pmapi → (Text → Bool) → Identity → Text → Method S (Unit {0})
unfolding pmns_root write_file
export_pmns_root api can_open id filename = write_file api can_open filename (pmns_root id)
