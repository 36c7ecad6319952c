-- ===== src/CommandLine/Accepted.antt =====
-- What parse_command_line has set when it says to run the agent.
use pcp_pmda_cpp.Base.{
  Bool, true, false, ◌≡◌, refl, sym, is_some, arith, ◌≤◌, Text, codes, List, none, Option-cases,
  inl, inr, if◌then◌else◌,
}
use pcp_pmda_cpp.Map.{find, text_ord}
use pcp_pmda_cpp.Pcp.{Pmapi}
use pcp_pmda_cpp.Exception.{ok}
use pcp_pmda_cpp.Pmda.State.{Config, Pmda, Method, Agent, ◌>>=◌, ◌>>◌, pure, lift}
use pcp_pmda_cpp.Export.Files.{Identity}
use pcp_pmda_cpp.CommandLine.Defs.{
  display_help, display_version, Options, Environment, Interface, IoType, pmda_pipe, pmda_inet,
  pmda_unix, pmda_ipv6,
}
use pcp_pmda_cpp.CommandLine.Checks.{read_options, check_conflicts}
use pcp_pmda_cpp.CommandLine.Parse.{
  program_name, export_options, apply_debug, apply_domain, apply_help_file, apply_inet,
  apply_log_file, apply_pipe, apply_unix, apply_inet6, apply_options, parse_command_line,
  process_options,
}
use pcp_pmda_cpp.CommandLine.Conflicts.{explicit_transports, check_conflicts-ok_iff}
use pcp_pmda_cpp.CommandLine.Exports.{asks_export, export_options-asks}
use pcp_pmda_cpp.CommandLine.Returns.{
  Returns, Returns-bind, Returns-pure, Returns-any, Returns-given, Returns-set, Returns-lift,
}

-- The transport after an option that selects one.
abbrev pub selected : Options → Text → IoType → IoType → IoType
selected o name new old = if is_some (find name o) then new else old

-- How to reach pmcd, once all options are applied: the last that was given of --inet, --pipe,
-- --unix and --inet6 says how, and without one it stays.
abbrev pub final_io : Options → IoType → IoType
final_io o x = selected o (codes "inet6") pmda_ipv6 (
    selected o (codes "unix") pmda_unix
      (selected o (codes "pipe") pmda_pipe (selected o (codes "inet") pmda_inet x)))

module _ {ℓ} (S : Type ℓ) (o : Options) (x : IoType) (i : Interface) (h : i.e_io ≡ x) where
  apply_domain-io : Returns (apply_domain {S = S} o i) (λ j. j.e_io ≡ x)
  unfolding apply_domain
  apply_domain-io = Returns-set S o (codes "domain") i _ _ _ (λ e. h) (λ v e n. h)

  apply_help_file-io : Returns (apply_help_file {S = S} o i) (λ j. j.e_io ≡ x)
  unfolding apply_help_file
  apply_help_file-io = Returns-set S o (codes "help-file") i _ _ _ (λ e. h) (λ v e n. h)

  apply_log_file-io : Returns (apply_log_file {S = S} o i) (λ j. j.e_io ≡ x)
  unfolding apply_log_file
  apply_log_file-io = Returns-set S o (codes "log-file") i _ _ _ (λ e. h) (λ v e n. h)

  apply_inet-io :
      Returns (apply_inet {S = S} o i) (λ j. j.e_io ≡ selected o (codes "inet") pmda_inet x)
  unfolding apply_inet
  apply_inet-io = Returns-set S o (codes "inet") i _ _ _ (λ e. rw e h) (λ v e n. rw e refl)

  apply_pipe-io :
      Returns (apply_pipe {S = S} o i) (λ j. j.e_io ≡ selected o (codes "pipe") pmda_pipe x)
  unfolding apply_pipe
  apply_pipe-io =
      Returns-given S o (codes "pipe") i _ _ (λ e. rw e h) (λ v e. Returns-pure S _ _ (rw e refl))

  apply_unix-io :
      Returns (apply_unix {S = S} o i) (λ j. j.e_io ≡ selected o (codes "unix") pmda_unix x)
  unfolding apply_unix
  apply_unix-io = Returns-set S o (codes "unix") i _ _ _ (λ e. rw e h) (λ v e n. rw e refl)

  apply_inet6-io :
      Returns (apply_inet6 {S = S} o i) (λ j. j.e_io ≡ selected o (codes "inet6") pmda_ipv6 x)
  unfolding apply_inet6
  apply_inet6-io = Returns-set S o (codes "inet6") i _ _ _ (λ e. rw e h) (λ v e n. rw e refl)

apply_options-io {ℓ} :
    (S : Type ℓ) (api : Pmapi) (env : Environment) (o : Options) (i : Interface)
    → Returns (apply_options {S = S} api env o i) (λ j. j.e_io ≡ final_io o i.e_io)
unfolding apply_options
apply_options-io S api env o i =
    Returns-bind _ (apply_inet6 o) _ _
      (Returns-bind _ (apply_unix o) _ _
        (Returns-bind _ (apply_pipe o) _ _
          (Returns-bind _ (apply_log_file o) _ _
            (Returns-bind _ (apply_inet o) _ _
              (Returns-bind _ (apply_help_file o) _ _
                (Returns-bind (apply_debug api env o) _ _ _ (Returns-any _)
                  (λ u t. apply_domain-io S o i.e_io i refl))
                (λ j h. apply_help_file-io S o _ j h))
              (λ j h. apply_inet-io S o _ j h))
            (λ j h. apply_log_file-io S o _ j h))
          (λ j h. apply_pipe-io S o _ j h))
        (λ j h. apply_unix-io S o _ j h))
      (λ j h. apply_inet6-io S o _ j h)

-- What holds of options that make the agent run on the interface `j`.
pub IsAccepted : Options → Interface → Interface → Type 0
IsAccepted o i j =
    (find (codes "help") o ≡ none)
    × (find (codes "version") o ≡ none)
    × (asks_export o ≡ false)
    × (explicit_transports o ≤ 1)
    × (j.e_io ≡ final_io o i.e_io)

module _ {ℓ} (S : Type ℓ) (o : Options) (i : Interface) where
  -- The value is acceptable where it says to run the agent.
  IsSound : Bool × Interface → Type 0
  IsSound r = r.0 ≡ true → IsAccepted o i r.1

  IsSound-declined : IsSound (false, i)
  unfolding IsSound
  IsSound-declined e = ground (arith, e)

  Returns-declined {κ} : {A : Type κ} (m : Method S A) → Returns (m >> pure (false, i)) IsSound
  Returns-declined m =
      Returns-bind m (λ a. pure (false, i)) (λ a. Unit {0}) IsSound (Returns-any m)
        (λ a t. Returns-pure S (false, i) IsSound IsSound-declined)

  run_unless-IsSound :
      (api : Pmapi) (env : Environment)
      → find (codes "help") o ≡ none
      → find (codes "version") o ≡ none
      → (exported : Bool) → exported ≡ asks_export o
      → Returns {S = S}
          (if exported
            then pure (false, i)
            else (lift (check_conflicts o) >> (apply_options api env o i >>= λ j. pure (true, j))))
          IsSound
  unfolding IsSound IsAccepted
  run_unless-IsSound api env e g true a = Returns-pure S (false, i) IsSound IsSound-declined
  run_unless-IsSound api env e g false a =
      Returns-bind (lift (check_conflicts o)) _ _ IsSound (Returns-lift S (check_conflicts o))
        (λ u c.
          Returns-bind (apply_options api env o i) (λ j. pure (true, j)) _ IsSound
            (apply_options-io S api env o i)
            (λ j io.
              Returns-pure S (true, j) IsSound
                (λ t. (e, g, sym a, (check_conflicts-ok_iff o).0 c, io))))

module _ {ℓ κ} {S : Type ℓ} {A : Type κ} (cfg : Config) (api : Pmapi) (can_open : Text → Bool)
    (env : Environment) (id : Identity) (agent : Agent S A) (argv : List Text) where
  process_options-IsSound :
      (o : Options) (i : Interface)
      → Returns (process_options cfg api can_open env id agent argv o i) (IsSound S o i)
  unfolding process_options
  process_options-IsSound o i = elim (Option-cases (find (codes "help") o)) [
    | inr (v, e) ↦
        rw (process_options, e) (Returns-declined S o i (display_help env (program_name id argv)))
    | inl e ↦ elim (Option-cases (find (codes "version") o)) [
      | inr (v, g) ↦
          rw (process_options, e, g) (Returns-declined S o i (display_version cfg api env id))
      | inl g ↦
          rw (process_options, e, g)
            (Returns-bind (export_options api can_open id agent o) _ _ (IsSound S o i)
              (export_options-asks agent o api can_open id)
              (λ b a. run_unless-IsSound S o i api env e g b a))
    ]
  ]

  -- When parse_command_line says to run the agent, the options were read, neither --help nor
  -- --version nor one of the export options was among them, at most one of --inet, --pipe, --unix
  -- and --inet6 was given explicitly, and the interface reaches pmcd as the last given of these
  -- says, or as before.
  pub parse_command_line-IsAccepted :
      (i j : Interface) (s s' : Pmda S)
      → parse_command_line cfg api can_open env id agent argv i s ≡ (ok (true, j), s')
      → (o : Options) × (read_options api env argv ≡ ok o) × IsAccepted o i j
  unfolding parse_command_line IsSound Returns
  parse_command_line-IsAccepted i j s s' h =
      Returns-bind (lift (read_options api env argv)) _ _
        (λ r. r.0 ≡ true → (o : Options) × (read_options api env argv ≡ ok o) × IsAccepted o i r.1)
        (Returns-lift S (read_options api env argv))
        (λ o e s1 s2 r g t. (o, e, process_options-IsSound o i s1 s2 r g t)) s s' (true, j) h refl
