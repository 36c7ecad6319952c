-- ===== src/CommandLine/Parse.antt =====
-- pmda::parse_command_line, in the build with boost::program_options.
use pcp_pmda_cpp.Base.{
  Bool, true, false, Text, codes, c_str, List, [], ◌∷◌, is_empty, none, some, if◌then◌else◌,
}
use pcp_pmda_cpp.Map.{find, text_ord}
use pcp_pmda_cpp.Pcp.{Pmapi}
use pcp_pmda_cpp.Exception.{ok}
use pcp_pmda_cpp.CommandLine.Checks.{read_options, check_conflicts, set_debugs}
use pcp_pmda_cpp.Pmda.State.{Config, Method, Agent, ◌>>=◌, ◌>>◌, pure, lift}
use pcp_pmda_cpp.Export.Files.{Identity, export_domain_header, export_pmns_root}
use pcp_pmda_cpp.Export.Pmns.{export_pmns_data}
use pcp_pmda_cpp.Export.Help.{export_help_text, export_support_files}
use pcp_pmda_cpp.CommandLine.Defs.{
  Value, Options, Environment, Interface, pmda_pipe, pmda_inet, pmda_unix, pmda_ipv6, as_int,
  as_text, as_texts, display_help, display_version,
}

module _ {ℓ} {S : Type ℓ} where
  -- `if (options.count(name) > 0)`, with the option's value.
  abbrev pub when_given {κ} : {A : Type κ} → Options → Text → A → (Value → Method S A) → Method S A
  when_given o name a f = elim (find name o) [ none ↦ pure a | some v ↦ f v.value ]

  -- `free_on_destruction.push(strdup(...))`
  abbrev pub keep_copy : Text → Method S Text
  keep_copy t s = (ok (c_str t), record s { free_on_destruction = c_str t ∷ s.free_on_destruction })

  unfoldable pub apply_debug : Pmapi → Environment → Options → Method S (Unit {0})
  unfolding set_debugs
  apply_debug api env o =
      when_given o (codes "debug") tt
        (λ v. lift (as_texts v) >>= λ specs. lift (set_debugs api env specs))

  unfoldable pub apply_domain : Options → Interface → Method S Interface
  apply_domain o i =
      when_given o (codes "domain") i (λ v. lift (as_int v) >>= λ n. pure (record i { domain = n }))

  unfoldable pub apply_help_file : Options → Interface → Method S Interface
  apply_help_file o i =
      when_given o (codes "help-file") i
        (λ v. lift (as_text v) >>= keep_copy >>= λ t. pure (record i { e_helptext = t }))

  unfoldable pub apply_inet : Options → Interface → Method S Interface
  apply_inet o i =
      when_given o (codes "inet") i
        (λ v. lift (as_int v) >>= λ n. pure (record i { e_io = pmda_inet; e_port = n }))

  unfoldable pub apply_log_file : Options → Interface → Method S Interface
  apply_log_file o i =
      when_given o (codes "log-file") i
        (λ v. lift (as_text v) >>= keep_copy >>= λ t. pure (record i { e_logfile = t }))

  unfoldable pub apply_pipe : Options → Interface → Method S Interface
  apply_pipe o i = when_given o (codes "pipe") i (λ v. pure (record i { e_io = pmda_pipe }))

  unfoldable pub apply_unix : Options → Interface → Method S Interface
  apply_unix o i = when_given o (codes "unix") i (λ v.
      lift (as_text v) >>= keep_copy >>= λ t. pure (record i { e_io = pmda_unix; e_sockname = t }))

  unfoldable pub apply_inet6 : Options → Interface → Method S Interface
  apply_inet6 o i =
      when_given o (codes "inet6") i
        (λ v. lift (as_int v) >>= λ n. pure (record i { e_io = pmda_ipv6; e_port = n }))

  -- The options that pmdaGetOpt would apply, in the order of the source.
  unfoldable pub apply_options : Pmapi → Environment → Options → Interface → Method S Interface
  unfolding apply_debug apply_domain apply_help_file apply_inet apply_log_file apply_pipe apply_unix
      apply_inet6
  apply_options api env o i =
      apply_debug api env o
      >> apply_domain o i
      >>= apply_help_file o
      >>= apply_inet o
      >>= apply_log_file o
      >>= apply_pipe o
      >>= apply_unix o
      >>= apply_inet6 o

  -- The descriptions are asked for unless there are some.
  unfoldable pub describe_once {κ} : {A : Type κ} → Agent S A → Method S (Unit {0})
  describe_once agent s =
      if is_empty s.supported_metrics.clusters
      then (agent.get_supported_metrics >>= λ m s'. (ok tt, record s' { supported_metrics = m })) s
      else (ok tt, s)

  -- One export of PCP_CPP_EXPORT for each file name.
  unfoldable pub export_each : (Text → Method S (Unit {0})) → List Text → Method S (Unit {0})
  export_each export [] = pure tt
  export_each export (f ∷ fs) = export f >> export_each export fs

  -- PCP_CPP_EXPORT: whether something was exported.
  unfoldable pub export_option {κ} :
      {A : Type κ}
      → Agent S A
      → Options
      → Text
      → (Text → Method S (Unit {0}))
      → Bool
      → Method S Bool
  unfolding export_each describe_once
  export_option agent o name export exported =
      when_given o name exported
        (λ v. describe_once agent >> lift (as_texts v) >>= export_each export >> pure true)

  unfoldable pub export_options {κ} :
      {A : Type κ} → Pmapi → (Text → Bool) → Identity → Agent S A → Options → Method S Bool
  unfolding export_option export_support_files export_domain_header export_help_text
      export_pmns_data export_pmns_root
  export_options api can_open id agent o =
      export_option agent o (codes "export-all") (export_support_files api can_open id) false
      >>= export_option agent o (codes "export-domain") (export_domain_header api can_open id)
      >>= export_option agent o (codes "export-help") (export_help_text api can_open id)
      >>= export_option agent o (codes "export-pmns") (export_pmns_data api can_open id)
      >>= export_option agent o (codes "export-root") (export_pmns_root api can_open id)

-- The name of the program in the help message: argv[0] unless it is missing or empty.
abbrev pub program_name : Identity → List Text → Text
program_name id [] = id.pmda_name
program_name id (arg ∷ args) = if is_empty arg then id.pmda_name else arg

module _ {ℓ κ} {S : Type ℓ} {A : Type κ} (cfg : Config) (api : Pmapi) (can_open : Text → Bool)
    (env : Environment) (id : Identity) (agent : Agent S A) (argv : List Text) where
  -- The options that only display something, then the exports, then the conflicts and the rest.
  unfoldable pub process_options : Options → Interface → Method S (Bool × Interface)
  unfolding check_conflicts apply_options export_options display_help display_version
  process_options o i = elim (find (codes "help") o) [
    | some v ↦ display_help env (program_name id argv) >> pure (false, i)
    | none ↦ elim (find (codes "version") o) [
      | some v ↦ display_version cfg api env id >> pure (false, i)
      | none ↦ export_options api can_open id agent o >>= λ exported.
          if exported
          then pure (false, i)
          else (lift (check_conflicts o) >> (apply_options api env o i >>= λ j. pure (true, j)))
    ]
  ]

  -- The result is whether to run the agent, with the interface that it is to run on. After an
  -- exception nobody reads the interface.
  unfoldable pub parse_command_line : Interface → Method S (Bool × Interface)
  unfolding read_options process_options
  parse_command_line i = lift (read_options api env argv) >>= λ o. process_options o i
