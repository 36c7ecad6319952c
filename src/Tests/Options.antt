-- ===== src/Tests/Options.antt =====
-- Command lines of a small agent.
use pcp_pmda_cpp.Base.{ℕ, ◌≡◌, refl, true, false, codes, [], ◌∷◌, none, c_str}
use pcp_pmda_cpp.Base.Int.{pos}
use pcp_pmda_cpp.Map.{find, text_ord}
use pcp_pmda_cpp.Pcp.{pcp4}
use pcp_pmda_cpp.Exception.{ok}
use pcp_pmda_cpp.Pmda.State.{Pmda}
use pcp_pmda_cpp.Export.Files.{Identity}
use pcp_pmda_cpp.CommandLine.Defs.{
  Options, Environment, Interface, int_value, text_value, pmda_unknown, pmda_inet,
  check_conflicting_options, is_explicit,
}
use pcp_pmda_cpp.CommandLine.Checks.{read_options, check_conflicts}
use pcp_pmda_cpp.CommandLine.Parse.{
  parse_command_line, process_options, export_options, export_option, apply_options, apply_debug,
  apply_domain, apply_help_file, apply_inet, apply_log_file, apply_pipe, apply_unix, apply_inet6,
}
use pcp_pmda_cpp.CommandLine.Accepted.{parse_command_line-IsAccepted, IsAccepted}
use pcp_pmda_cpp.Tests.Fixtures.{config, agent, ready}

-- `--inet=7001`, the other options defaulted.
abbrev parsed : Options
parsed =
    (codes "config", record { defaulted = true; value = text_value (codes "/etc/shop") })
    ∷ (codes "domain", record { defaulted = true; value = int_value (pos 412) })
    ∷ (codes "inet", record { defaulted = false; value = int_value (pos 7001) })
    ∷ (codes "log-file", record { defaulted = true; value = text_value (codes "shop.log") })
    ∷ []

abbrev pub environment : Environment
environment = record {
  parse_arguments = λ argv. ok parsed;
  open_config = λ path. none;
  parse_config = λ contents o. ok o;
  set_debug = λ spec. pos 0;
  options_text = codes "options";
  pmda_version = [];
}

abbrev pub identity : Identity
identity = record { pmda_name = codes "shop"; default_domain_number = pos 412 }

abbrev pub before : Interface
before = record {
  domain = pos 0;
  e_helptext = [];
  e_io = pmda_unknown;
  e_port = pos 0;
  e_logfile = [];
  e_sockname = [];
}

abbrev pub after : Interface
after = record {
  domain = pos 412;
  e_helptext = [];
  e_io = pmda_inet;
  e_port = pos 7001;
  e_logfile = codes "shop.log";
  e_sockname = [];
}

abbrev pub logged : Pmda ℕ
logged = record ready { free_on_destruction = codes "shop.log" ∷ [] }

pub accepted_run :
    parse_command_line config pcp4
      (λ f. true)
      environment
      identity
      agent
      (codes "shop" ∷ [])
      before
      ready
    ≡ (ok (true, after), logged)
unfolding parse_command_line process_options read_options find c_str export_options export_option
    check_conflicts check_conflicting_options is_explicit apply_options apply_debug apply_domain
    apply_help_file apply_inet apply_log_file apply_pipe apply_unix apply_inet6
accepted_run = refl

parse_command_line-IsAccepted_example :
    (o : Options) × (read_options pcp4 environment (codes "shop" ∷ []) ≡ ok o)
    × IsAccepted o before after
parse_command_line-IsAccepted_example =
    parse_command_line-IsAccepted config pcp4 (λ f. true) environment identity agent
      (codes "shop" ∷ []) before after ready logged accepted_run
