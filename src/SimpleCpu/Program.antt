-- ===== src/SimpleCpu/Program.antt =====
-- The entry points of example/simplecpu/simplecpu.cpp, and what its name and number are.
use pcp_pmda_cpp.Base.{ℕ, Bool, Text, codes, List, Option}
use pcp_pmda_cpp.Base.Int.{ℤ, pos}
use pcp_pmda_cpp.Pcp.{Pmapi}
use pcp_pmda_cpp.Exception.{Result, ok, err}
use pcp_pmda_cpp.Atom.Defs.{Floats}
use pcp_pmda_cpp.Pmda.State.{Config, Pmda}
use pcp_pmda_cpp.Pmda.Init.{Tables}
use pcp_pmda_cpp.Pmda.LifeCycle.{Process}
use pcp_pmda_cpp.Export.Files.{Identity}
use pcp_pmda_cpp.CommandLine.Defs.{Environment, Interface}
use pcp_pmda_cpp.Daemon.Program.{daemon_main, dso_init}
use pcp_pmda_cpp.SimpleCpu.Defs.{SimpleCpu, new_simple_cpu, simple_cpu}

-- get_pmda_name and get_default_pmda_domain_number.
abbrev pub identity : Identity
identity = record { pmda_name = codes "simplecpu"; default_domain_number = pos 129 }

-- What the constructor gives or throws.
abbrev pub made : Result (Unit {0}) × Pmda SimpleCpu → Result (Pmda SimpleCpu)
made (ok _, s) = ok s
made (err e, s) = err e

-- `stat` is the text of /proc/stat when the constructor reads it.
module _ (fl : Floats) (cfg : Config) (api : Pmapi) (range_what : Text) (pmda_init : Tables → ℕ → ℕ)
    (address : ℕ) (stat : Option Text) where
  unfoldable pub simplecpu_init :
      ℕ → ℤ → Pmda SimpleCpu → Process SimpleCpu → Result (Unit {0}) × Process SimpleCpu
  unfolding dso_init new_simple_cpu
  simplecpu_init understood status s p =
      dso_init cfg api range_what (simple_cpu fl api address stat) pmda_init understood status
        (made (new_simple_cpu api address stat s)) p

  unfoldable pub main :
      (Text → Bool)
      → Environment
      → (Pmda SimpleCpu → Result (Unit {0}) × Pmda SimpleCpu)
      → List Text
      → Interface
      → Pmda SimpleCpu
      → Process SimpleCpu
      → Option (Result Bool × Process SimpleCpu)
  unfolding daemon_main new_simple_cpu
  main can_open env serve argv interface s p =
      daemon_main cfg api range_what (simple_cpu fl api address stat) pmda_init can_open env
        identity serve argv interface (made (new_simple_cpu api address stat s)) p
