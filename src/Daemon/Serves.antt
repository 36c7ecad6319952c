-- ===== src/Daemon/Serves.antt =====
-- Every run of the virtual run_daemon, with the calls that it makes (include/pcp-cpp/pmda.hpp).
use pcp_pmda_cpp.Base.{
  ℕ, ◌+◌, zero, suc, ◌≡◌, refl, ap, arith, Bool, true, false, is_empty, Text, codes, c_str, List,
  [], ◌∷◌, ◌++◌, map, length, some,
}
use pcp_pmda_cpp.Pcp.{Pmapi}
use pcp_pmda_cpp.Exception.{Result, Thrown, ok, err}
use pcp_pmda_cpp.Metrics.Defs.{MetricsDescription}
use pcp_pmda_cpp.Pmda.State.{Config, Pmda, Agent}
use pcp_pmda_cpp.Pmda.Init.{Tables, initialize_pmda}
use pcp_pmda_cpp.Pmda.InitTables.{domains_of, build_tables-total}
use pcp_pmda_cpp.Pmda.Registered.{initialize_pmda-ok}
use pcp_pmda_cpp.Export.Files.{Identity}
use pcp_pmda_cpp.CommandLine.Defs.{Environment, Interface}
use pcp_pmda_cpp.CommandLine.Parse.{parse_command_line}
use pcp_pmda_cpp.Daemon.Paths.{get_log_file_pathname, get_help_text_pathname}
use pcp_pmda_cpp.Daemon.Defs.{
  Call, Ran, set_progname, daemon, open_log, initialize, connect, main, delete_it_set,
  delete_indoms, delete_metrics, returned, opening, delete_it_sets, closing, after_main,
  after_initialize, after_parse, run_daemon,
}

-- So many numbers, from `i` on.
abbrev pub numbers : ℕ → ℕ → List ℕ
numbers i zero = []
numbers i (suc n) = let rest = numbers (i + 1) n in i ∷ rest

delete_it_sets-numbers :
    (i : ℕ) (entries : List ℕ)
    → delete_it_sets i entries ≡ map delete_it_set (numbers i (length entries))
unfolding delete_it_sets
delete_it_sets-numbers i [] = refl
delete_it_sets-numbers i (e ∷ es) = ap (◌∷◌ (delete_it_set i)) (delete_it_sets-numbers (i + 1) es)

is_empty-append : (a b : Text) → is_empty b ≡ false → is_empty (a ++ b) ≡ false
is_empty-append [] b h = h
is_empty-append (x ∷ a) b h = refl

-- The calls before the command line is parsed. A path of a help text is always given.
pub opened : Config → Pmapi → Identity → List Call
opened cfg api id =
    set_progname (c_str id.pmda_name)
    ∷ daemon cfg.interface_version (c_str id.pmda_name) id.default_domain_number
        (c_str (id.pmda_name ++ codes ".log"))
        (some (c_str (get_help_text_pathname api id.pmda_name)))
    ∷ []

opening-opened :
    (cfg : Config) (api : Pmapi) (id : Identity) → opening cfg api id ≡ opened cfg api id
unfolding opening opened get_help_text_pathname get_log_file_pathname
opening-opened cfg api id = rw (is_empty-append _ (codes "help") refl) refl

module _ {ℓ κ} {S : Type ℓ} {A : Type κ} (cfg : Config) (api : Pmapi) (can_open : Text → Bool)
    (env : Environment) (id : Identity) (agent : Agent S A) (pmda_init : Tables → ℕ → ℕ)
    (serve : Pmda S → Result (Unit {0}) × Pmda S) where
  -- A run on the interface `j` that came to pmdaMain, by what that left, with `n` instance domains.
  pub Served : Interface → ℕ → Result (Unit {0}) × Pmda S → Ran S → Type ℓ
  Served j n (ok u, s) ran = ran ≡ record {
    outcome = ok returned;
    members = s;
    calls =
        opened cfg api id
        ++ open_log j ∷ initialize ∷ connect j ∷ main j ∷ []
        ++ map delete_it_set (numbers 0 n)
        ++ delete_indoms ∷ delete_metrics ∷ [];
  }
  Served j n (err e, s) ran = ran ≡ record {
    outcome = err e;
    members = s;
    calls = opened cfg api id ++ open_log j ∷ initialize ∷ connect j ∷ main j ∷ [];
  }

  -- A run that was to go on, from the members `s`, by how the agent described its metrics.
  pub Described : Interface → Pmda S → Result MetricsDescription × Pmda S → Ran S → Type ℓ
  Described j s (ok m, s') ran =
      (t : Tables) × (ready : Pmda S) × (initialize_pmda api agent pmda_init s
        ≡ (ok (some t), ready))
      × Served j (length (domains_of m)) (serve ready) ran
  Described j s (err e, s') ran = ran ≡ record {
    outcome = err e;
    members = s';
    calls = opened cfg api id ++ open_log j ∷ initialize ∷ [];
  }

  -- A run, by what parse_command_line gave.
  pub Parsed : Result (Bool × Interface) × Pmda S → Ran S → Type ℓ
  Parsed (ok (true, j), s) ran = Described j s (agent.get_supported_metrics s) ran
  Parsed (ok (false, j), s) ran =
      ran ≡ record { outcome = ok returned; members = s; calls = opened cfg api id }
  Parsed (err e, s) ran = ran ≡ record { outcome = err e; members = s; calls = opened cfg api id }

  after_main-Served :
      (j : Interface) (t : Tables) (x : Result (Unit {0}) × Pmda S)
      → Served j (length t.instance_domains) x (
          after_main cfg api can_open env id agent pmda_init serve
            ((opening cfg api id ++ open_log j ∷ initialize ∷ []) ++ connect j ∷ main j ∷ [])
            t
            x)
  unfolding after_main Served closing opened
  after_main-Served j t (ok u, s) =
      rw (opening-opened, delete_it_sets-numbers 0 t.instance_domains) refl
  after_main-Served j t (err e, s) = rw opening-opened refl

  initialize_pmda-err :
      (s s' : Pmda S) (x : Thrown)
      → agent.get_supported_metrics s ≡ (err x, s')
      → initialize_pmda api agent pmda_init s ≡ (err x, s')
  unfolding initialize_pmda
  initialize_pmda-err s s' x e = ground (arith, e)

  after_initialize-Described :
      (j : Interface) (s : Pmda S) (x : Result MetricsDescription × Pmda S)
      → agent.get_supported_metrics s ≡ x
      → Described j s x (
          after_initialize cfg api can_open env id agent pmda_init serve j
            (opening cfg api id ++ open_log j ∷ initialize ∷ [])
            (initialize_pmda api agent pmda_init s))
  unfolding after_initialize Described
  after_initialize-Described j s (ok m, s') e =
      let (t, built, ds, _, _) = build_tables-total api s'.heap m in
      let run = initialize_pmda-ok api agent pmda_init s s' m t e built in
      (t, _, run, rw (run, ← ds) (after_main-Served j t _))
  after_initialize-Described j s (err x, s') e =
      rw (initialize_pmda-err s s' x e, opening-opened) refl

  after_parse-Parsed :
      (x : Result (Bool × Interface) × Pmda S)
      → Parsed x (after_parse cfg api can_open env id agent pmda_init serve x)
  unfolding after_parse Parsed
  after_parse-Parsed (ok (true, j), s) = after_initialize-Described j s _ refl
  after_parse-Parsed (ok (false, j), s) = rw opening-opened refl
  after_parse-Parsed (err e, s) = rw opening-opened refl

  -- Every run calls pmSetProgname and pmdaDaemon first, the latter with the name, the number, the
  -- path of the log and that of the help text. Where the command line is refused, or asks for
  -- something else than to run, nothing more is called, and an exception passes on. Otherwise
  -- pmdaOpenLog and initialize_pmda follow, whose assertions do not fail; where the agent describes
  -- its metrics without an exception, so do pmdaConnect and pmdaMain, all on the interface that the
  -- options give. Where pmdaMain returns, the instances of each distinct domain of the metrics are
  -- deleted, once and in order, then the two tables, and the run returns with the members as the
  -- callbacks left them. Where a callback throws, nothing is deleted and the exception passes on.
  pub run_daemon-Parsed :
      (argv : List Text) (i : Interface) (s : Pmda S)
      → Parsed
          (parse_command_line cfg api can_open env id agent argv i s)
          (run_daemon cfg api can_open env id agent pmda_init serve argv i s)
  unfolding run_daemon
  run_daemon-Parsed argv i s =
      after_parse-Parsed (parse_command_line cfg api can_open env id agent argv i s)
