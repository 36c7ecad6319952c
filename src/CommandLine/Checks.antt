-- ===== src/CommandLine/Checks.antt =====
-- What parse_command_line reads and checks before it sets anything.
use pcp_pmda_cpp.Base.{Text, codes, c_str, List, [], ◌∷◌, ◌++◌, none, some, if◌then◌else◌}
use pcp_pmda_cpp.Base.Int.{is_neg}
use pcp_pmda_cpp.Map.{find, text_ord}
use pcp_pmda_cpp.Pcp.{Pmapi}
use pcp_pmda_cpp.Exception.{Result, ok, err, pcp, exception, or_out_of_range, ◌>>=◌, ◌>>◌}
use pcp_pmda_cpp.CommandLine.Defs.{Options, Environment, as_text, check_conflicting_options}

-- The arguments, and then the configuration file, which must be there unless it is the default.
unfoldable pub read_options : Pmapi → Environment → List Text → Result Options
read_options api env argv = env.parse_arguments argv >>= λ o.
    or_out_of_range (find (codes "config") o) >>= λ config. as_text config.value >>= λ path.
    elim (env.open_config (c_str path)) [
      | some contents ↦ env.parse_config contents o
      | none ↦
          if config.defaulted
          then ok o
          else err
              (pcp (exception api api.err_generic (codes "Failed to open config file: " ++ path)))
    ]

unfoldable pub check_conflicts : Options → Result (Unit {0})
unfolding check_conflicting_options
check_conflicts o =
    check_conflicting_options o (codes "inet") (codes "pipe")
    >> check_conflicting_options o (codes "inet") (codes "unix")
    >> check_conflicting_options o (codes "inet") (codes "inet6")
    >> check_conflicting_options o (codes "pipe") (codes "unix")
    >> check_conflicting_options o (codes "pipe") (codes "inet6")
    >> check_conflicting_options o (codes "unix") (codes "inet6")

-- pmSetDebug of each value.
unfoldable pub set_debugs : Pmapi → Environment → List Text → Result (Unit {0})
set_debugs api env [] = ok tt
set_debugs api env (spec ∷ specs) =
    let rest = set_debugs api env specs in
    if is_neg (env.set_debug (c_str spec))
    then err (
        pcp (
          exception api (env.set_debug (c_str spec))
            (codes "unrecognized debug flag specification '" ++ spec ++ codes "'")))
    else rest
