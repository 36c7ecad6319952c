-- ===== src/CommandLine/Defs.antt =====
-- parse_command_line and what it displays (include/pcp-cpp/pmda.hpp). What the boost library
-- makes of the arguments and of a configuration file is a parameter.
use pcp_pmda_cpp.Base.{
  Bool, false, not, ◌&&◌, Text, codes, List, [], ◌∷◌, ◌++◌, is_empty, Option, none, some, decimal,
  hexadecimal, if◌then◌else◌,
}
use pcp_pmda_cpp.Base.Int.{ℤ}
use pcp_pmda_cpp.Map.{Map, find, text_ord}
use pcp_pmda_cpp.Pcp.{Pmapi}
use pcp_pmda_cpp.Exception.{Result, ok, err, std}
use pcp_pmda_cpp.Version.Defs.{get_pcp_runtime_version}
use pcp_pmda_cpp.Pmda.State.{Config, Method}
use pcp_pmda_cpp.Export.Files.{Identity, endl, dash}

-- What a variable_value holds.
pub data Value : Type 0 where
  no_value : Value
  int_value : ℤ → Value
  text_value : Text → Value
  texts_value : List Text → Value

pub record Variable : Type 0 where
  pub defaulted : Bool
  pub value : Value

-- boost::program_options::variables_map.
abbrev pub Options : Type 0
Options = Map Text Variable

-- boost::program_options with the agent's descriptions of options, the file system, and pmSetDebug.
pub record Environment : Type 0 where
  -- `store(command_line_parser(argc, argv)....run(), options)`
  pub parse_arguments : List Text → Result Options
  -- The contents of a file that std::ifstream opens.
  pub open_config : Text → Option Text
  -- `store(parse_config_file(config_stream, supported_options), options)`
  pub parse_config : Text → Options → Result Options
  pub set_debug : Text → ℤ
  -- What `operator<<` writes for the supported options.
  pub options_text : Text
  -- get_pmda_version.
  pub pmda_version : Text

-- `options.at(name).as<T>()`
abbrev pub bad_cast {ℓ} : {A : Type ℓ} → Result A
bad_cast = err (std (codes "boost::bad_any_cast: failed conversion using boost::any_cast"))

abbrev pub as_int : Value → Result ℤ
as_int (int_value n) = ok n
as_int no_value = bad_cast
as_int (text_value t) = bad_cast
as_int (texts_value ts) = bad_cast

abbrev pub as_text : Value → Result Text
as_text (text_value t) = ok t
as_text no_value = bad_cast
as_text (int_value n) = bad_cast
as_text (texts_value ts) = bad_cast

abbrev pub as_texts : Value → Result (List Text)
as_texts (texts_value ts) = ok ts
as_texts no_value = bad_cast
as_texts (int_value n) = bad_cast
as_texts (text_value t) = bad_cast

-- pmdaIoType; 4 is the value of pmdaIPv6.
pub data IoType : Type 0 where
  pmda_pipe pmda_inet pmda_unix pmda_unknown pmda_ipv6 : IoType

-- The fields of pmdaInterface, and of its pmdaExt, that the options set.
pub record Interface : Type 0 where
  pub domain : ℤ
  pub e_helptext : Text
  pub e_io : IoType
  pub e_port : ℤ
  pub e_logfile : Text
  pub e_sockname : Text

-- Whether the option was given, and not only defaulted.
unfoldable pub is_explicit : Options → Text → Bool
is_explicit o name = elim (find name o) [ none ↦ false | some v ↦ not v.defaulted ]

unfoldable pub check_conflicting_options : Options → Text → Text → Result (Unit {0})
unfolding is_explicit
check_conflicting_options o option1 option2 =
    if is_explicit o option1 && is_explicit o option2
    then err
        (std (codes "conflicting options '" ++ option1 ++ codes "' and '" ++ option2 ++ codes "'."))
    else ok tt

unfoldable pub get_usage : Text → Text
get_usage program_name = program_name ++ codes " [options]"

-- `std::cout << text`
abbrev pub print {ℓ} : {S : Type ℓ} → Text → Method S (Unit {0})
print text s = (ok tt, record s { output = (dash, text) ∷ s.output })

unfoldable pub display_help {ℓ} : {S : Type ℓ} → Environment → Text → Method S (Unit {0})
unfolding get_usage
display_help env program_name =
    print (
      endl ++ codes "Usage: " ++ get_usage program_name ++ endl ++ endl ++ env.options_text ++ endl)

unfoldable pub display_version {ℓ} :
    {S : Type ℓ} → Config → Pmapi → Environment → Identity → Method S (Unit {0})
display_version cfg api env id = print (
    endl
    ++ id.pmda_name
    ++ codes " PMDA"
    ++ (if is_empty env.pmda_version then [] else codes " version " ++ env.pmda_version)
    ++ endl
    ++ codes "PMDA interface version "
    ++ decimal cfg.interface_version
    ++ endl
    ++ codes "PCP version "
    ++ api.get_config (codes "PCP_VERSION")
    ++ codes " ("
    ++ hexadecimal (get_pcp_runtime_version api)
    ++ codes ")"
    ++ endl
    ++ endl)
