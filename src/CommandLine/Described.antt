-- ===== src/CommandLine/Described.antt =====
-- The options that the build with boost::program_options describes (include/pcp-cpp/pmda.hpp).
use pcp_pmda_cpp.Base.{
  ℕ, Bool, false, ◌||◌, ◌&&◌, ◌==◌, leb, ltb, ◌+◌, ◌*◌, ◌^◌, ◌<◌, ◌≡◌, refl, ap, ◌∙◌, arith,
  if◌then◌else◌, Text, codes, text_eq, List, [], ◌∷◌, ◌++◌, Option, none, some, Bool-cases, inl,
  inr,
}
use pcp_pmda_cpp.Base.Int.{ℤ}
use pcp_pmda_cpp.Pcp.{Pmapi}
use pcp_pmda_cpp.Version.Defs.{get_pcp_runtime_version, numeric_version}
use pcp_pmda_cpp.Version.RoundTrip.{version_text, numeric_version-version_text}
use pcp_pmda_cpp.Export.Files.{Identity}
use pcp_pmda_cpp.Daemon.Paths.{
  get_config_file_pathname, get_help_text_pathname, get_log_file_pathname,
}

-- The argument of an option: none, value<int>() and value<std::string>() with a default where there
-- is one, and value<string_vector>() with the implicit value. The name of the value is the last.
pub data Argument : Type 0 where
  no_argument : Argument
  int_argument : Option ℤ → Text → Argument
  text_argument : Option Text → Text → Argument
  texts_argument : List Text → Text → Argument

-- An element of options_description, with the letter of the short form.
pub record Described : Type 0 where
  pub name : Text
  pub letter : Option ℕ
  pub argument : Argument
  pub description : Text

abbrev option : Text → Option ℕ → Argument → Text → Described
option name letter argument description = record {
  name = name;
  letter = letter;
  argument = argument;
  description = description;
}

module _ (api : Pmapi) (id : Identity) where
  abbrev pub always : List Described
  always =
      option (codes "debug") (some b'D') (texts_argument (codes "-1" ∷ []) (codes "spec"))
        (codes "set debug specification")
      ∷ option (codes "domain") (some b'd')
          (int_argument (some id.default_domain_number) (codes "n")) (codes "domain number to use")
      ∷ option (codes "help-file") (some b'h')
          (text_argument (some (get_help_text_pathname api id.pmda_name)) (codes "file"))
          (codes "file containing help text")
      ∷ option (codes "inet") (some b'i') (int_argument none (codes "port"))
          (codes "use inet port for pmcd comms; conflicts with -p, -u and -6")
      ∷ option (codes "log-file") (some b'l')
          (text_argument (some (get_log_file_pathname id.pmda_name)) (codes "file"))
          (codes "file to use for logging")
      ∷ option (codes "pipe") (some b'p') no_argument
          (codes "use stdin/stdout for pmcd comms; conflicts with -i, -u and -6")
      ∷ option (codes "unix") (some b'u') (text_argument none (codes "socket"))
          (codes "use named socket for pmcd comms; conflicts with -i, -p and -6")
      ∷ []

  unfoldable pub pcp_builtin_options : List Described
  unfolding get_help_text_pathname get_log_file_pathname get_pcp_runtime_version
  pcp_builtin_options =
      if leb 0x30801 (get_pcp_runtime_version api)
      then always
        ++ option (codes "inet6") (some b'6') (int_argument none (codes "port"))
            (codes "use IPv6 port for pmcd comms; conflicts with -i, -p and -u")
          ∷ []
      else always

  abbrev export : Text → Text → Text → Text → Described
  export name implicit value_name description =
      option name none (texts_argument (implicit ∷ []) value_name) description

  unfoldable pub get_supported_options : List Described
  unfolding pcp_builtin_options get_config_file_pathname
  get_supported_options =
      pcp_builtin_options
      ++ (option (codes "config") none
            (text_argument (some (get_config_file_pathname api id.pmda_name)) (codes "file"))
            (codes "load options from config file")
          ∷ export (codes "export-all") (codes ".") (codes "dir")
              (codes "export domain, help, pmns and root then exit")
          ∷ export (codes "export-domain") (codes "-") (codes "file")
              (codes "export domain header then exit")
          ∷ export (codes "export-help") (codes "-") (codes "file")
              (codes "export help text then exit")
          ∷ export (codes "export-pmns") (codes "-") (codes "file")
              (codes "export pmns text then exit")
          ∷ export (codes "export-root") (codes "-") (codes "file")
              (codes "export pmns root then exit")
          ∷ option (codes "help") none no_argument (codes "display this message then exit")
          ∷ option (codes "version") none no_argument (codes "display version info then exit")
          ∷ [])

-- Whether there is an option with the name, and the name of the one with the letter.
abbrev pub is_described : Text → List Described → Bool
is_described name [] = false
is_described name (d ∷ ds) = text_eq name d.name || is_described name ds

abbrev is_letter : Option ℕ → ℕ → Bool
is_letter none a = false
is_letter (some b) a = a == b

abbrev pub named_by : ℕ → List Described → Option Text
named_by a [] = none
named_by a (d ∷ ds) = if is_letter d.letter a then some d.name else named_by a ds

module _ (api : Pmapi) (id : Identity) where
  is_described-inet6 :
      is_described (codes "inet6") (get_supported_options api id)
      ≡ leb 0x30801 (get_pcp_runtime_version api)
  unfolding get_supported_options pcp_builtin_options
  is_described-inet6 = ground arith

  from_3_8_1 :
      (a b c : ℕ)
      → b < 2 ^ 8
      → c < 2 ^ 8
      → leb 0x30801 ((a * 2 ^ 16) + (b * 2 ^ 8) + c)
        ≡ (ltb 3 a || (a == 3 && (ltb 8 b || (b == 8 && leb 1 c))))
  from_3_8_1 a b c hb hc = ground arith

  letter_h : named_by b'h' (get_supported_options api id) ≡ some (codes "help-file")
  unfolding get_supported_options pcp_builtin_options
  letter_h = elim (Bool-cases (leb 0x30801 (get_pcp_runtime_version api))) [
    | inl e ↦ rw e refl
    | inr e ↦ rw e refl
  ]

  letter_v : named_by b'v' (get_supported_options api id) ≡ none
  unfolding get_supported_options pcp_builtin_options
  letter_v = elim (Bool-cases (leb 0x30801 (get_pcp_runtime_version api))) [
    | inl e ↦ rw e refl
    | inr e ↦ rw e refl
  ]

  -- With a version string of three numbers, the last two below 256, --inet6 is an option from
  -- version 3.8.1 on; and -h stands for --help-file whatever the version is.
  pub get_supported_options-inet6 :
      (a b c : ℕ)
      → api.get_config (codes "PCP_VERSION") ≡ version_text a b c
      → a < 2 ^ 32
      → b < 2 ^ 8
      → c < 2 ^ 8
      → (is_described (codes "inet6") (get_supported_options api id)
          ≡ (ltb 3 a || (a == 3 && (ltb 8 b || (b == 8 && leb 1 c)))))
        × (named_by b'h' (get_supported_options api id) ≡ some (codes "help-file"))
        × (named_by b'v' (get_supported_options api id) ≡ none)
  unfolding get_pcp_runtime_version
  get_supported_options-inet6 a b c e ha hb hc = (
    is_described-inet6
        ∙ ap (leb 0x30801) (
            ap numeric_version e
            ∙ numeric_version-version_text a b c ha (omega arith) (omega arith))
        ∙ from_3_8_1 a b c hb hc,
    letter_h,
    letter_v,
  )
