-- ===== src/Tests/GetOpts.antt =====
-- Options that pmdaGetOpt finds, and those that are described.
use pcp_pmda_cpp.Base.{
  ℕ, ◌+◌, ◌<◌, ◌≡◌, refl, arith, Bool, ◌&&◌, ◌||◌, ◌==◌, leb, ltb, Text, codes, List, [], ◌∷◌, none,
  some, length,
}
use pcp_pmda_cpp.Base.Int.{ℤ, pos}
use pcp_pmda_cpp.Pcp.{Pmapi, pcp4}
use pcp_pmda_cpp.Exception.{Result, ok}
use pcp_pmda_cpp.Pmda.State.{Pmda}
use pcp_pmda_cpp.Version.RoundTrip.{version_text}
use pcp_pmda_cpp.Export.Files.{Identity}
use pcp_pmda_cpp.CommandLine.Defs.{Interface, pmda_unknown}
use pcp_pmda_cpp.CommandLine.GetOpt.{GetOpt, parse_command_line, Rounds, parse_command_line-Rounds}
use pcp_pmda_cpp.CommandLine.Described.{
  is_described, named_by, get_supported_options, get_supported_options-inet6,
}
use pcp_pmda_cpp.Tests.Fixtures.{ready}

abbrev interface : Interface
interface = record {
  domain = pos 0;
  e_helptext = [];
  e_io = pmda_unknown;
  e_port = pos 0;
  e_logfile = [];
  e_sockname = [];
}

-- What is left is a list of letters that pmdaGetOpt does not know.
abbrev next : Text → List ℕ → Interface → ℕ → GetOpt (List ℕ)
next options [] i errors = record {
  returned = none;
  interface = i;
  error_count = errors;
  position = [];
}
next options (c ∷ cs) i errors = record {
  returned = some (pos c);
  interface = i;
  error_count = errors;
  position = cs;
}

next-less :
    (g : List ℕ) (i : Interface) (errors : ℕ) (c : ℤ)
    → (next [] g i errors).returned ≡ some c
    → length (next [] g i errors).position < length g
next-less [] i errors c e = cc
next-less (a ∷ g) i errors c e = omega arith

abbrev process : ℤ → Pmda ℕ → Result (Unit {0}) × Pmda ℕ
process c s = (ok tt, record s { agent = s.agent + 1 })

parse_command_line-Rounds_example :
    (r : Result (Bool × Interface) × Pmda ℕ) × (parse_command_line next process 3
        (b'x' ∷ b'y' ∷ [])
        interface
        0
        ready
      ≡ some r)
    × Rounds next process (b'x' ∷ b'y' ∷ []) interface 0 ready r
parse_command_line-Rounds_example =
    parse_command_line-Rounds next process length next-less 3 (b'x' ∷ b'y' ∷ []) interface 0 ready
      (omega arith)

abbrev identity : Identity
identity = record { pmda_name = codes "shop"; default_domain_number = pos 412 }

abbrev older : Pmapi
older = record pcp4 { get_config = λ v. version_text 3 8 0 }

get_supported_options-inet6_example :
    (is_described (codes "inet6") (get_supported_options older identity)
      ≡ (ltb 3 3 || (3 == 3 && (ltb 8 8 || (8 == 8 && leb 1 0)))))
    × (named_by b'h' (get_supported_options older identity) ≡ some (codes "help-file"))
    × (named_by b'v' (get_supported_options older identity) ≡ none)
get_supported_options-inet6_example =
    get_supported_options-inet6 older identity 3 8 0 refl (omega arith) (omega arith) (omega arith)
