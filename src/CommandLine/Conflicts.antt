-- ===== src/CommandLine/Conflicts.antt =====
-- Which options conflict: the four that say how to reach pmcd.
use pcp_pmda_cpp.Base.{ℕ, ◌+◌, ◌≤◌, ◌≡◌, ◌↔◌, arith, Bool, codes, if◌then◌else◌}
use pcp_pmda_cpp.Exception.{ok}
use pcp_pmda_cpp.CommandLine.Defs.{Options, is_explicit, check_conflicting_options}
use pcp_pmda_cpp.CommandLine.Checks.{check_conflicts}

abbrev bit : Bool → ℕ
bit b = if b then 1 else 0

-- How many of --inet, --pipe, --unix and --inet6 were given.
unfoldable pub explicit_transports : Options → ℕ
explicit_transports o =
    bit (is_explicit o (codes "inet"))
    + bit (is_explicit o (codes "pipe"))
    + bit (is_explicit o (codes "unix"))
    + bit (is_explicit o (codes "inet6"))

-- The six pairwise checks accept the options exactly when at most one of --inet, --pipe, --unix
-- and --inet6 was given explicitly.
pub check_conflicts-ok_iff :
    (o : Options) → (check_conflicts o ≡ ok tt) ↔ (explicit_transports o ≤ 1)
unfolding check_conflicts check_conflicting_options explicit_transports
check_conflicts-ok_iff o = ground arith
