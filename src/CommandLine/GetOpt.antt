-- ===== src/CommandLine/GetOpt.antt =====
-- parse_command_line and process_command_line_option in the build without boost
-- (include/pcp-cpp/pmda.hpp). What pmdaGetOpt does is a parameter.
use pcp_pmda_cpp.Base.{
  ℕ, zero, suc, ◌^◌, ◌<◌, ◌≡◌, refl, arith, Bool, ◌==◌, if◌then◌else◌, Text, codes, [], ◌∷◌, ◌++◌,
  Option, none, some, Option-cases, ◌⊎◌, inl, inr,
}
use pcp_pmda_cpp.Base.Int.{ℤ, pos, eq_ℤ}
use pcp_pmda_cpp.Pcp.{Pmapi}
use pcp_pmda_cpp.Exception.{Result, ok, err, Thrown, pcp, exception}
use pcp_pmda_cpp.Atom.Words.{to_unsigned}
use pcp_pmda_cpp.Pmda.State.{Pmda, Method}
use pcp_pmda_cpp.CommandLine.Defs.{Interface}

unfoldable pub pcp_builtin_options : Text
pcp_builtin_options = codes "d:D:h:i:l:pu:6:"

unfoldable pub get_supported_options : Text
unfolding pcp_builtin_options
get_supported_options = pcp_builtin_options

-- The base class's process_command_line_option; `optopt` is that of getopt.
unfoldable pub process_command_line_option {ℓ} : {S : Type ℓ} → Pmapi → ℤ → ℤ → Method S (Unit {0})
unfolding to_unsigned
process_command_line_option api optopt c s = (
  err (
      pcp (
        exception api api.err_generic (
          if eq_ℤ c (pos b'?')
          then codes "unrecognised option '-" ++ (to_unsigned (2 ^ 8) optopt ∷ []) ++ codes "')"
          else codes "unimplemented option '-" ++ (to_unsigned (2 ^ 8) c ∷ []) ++ codes "')"))),
  s,
)

-- One call of pmdaGetOpt with the supported options: what it returns, `none` for EOF, the
-- interface and the count of errors as it leaves them, and where it stands in the arguments.
pub record GetOpt (G : Type 0) : Type 0 where
  pub returned : Option ℤ
  pub interface : Interface
  pub error_count : ℕ
  pub position : G

module _ {ℓ} {G : Type 0} {S : Type ℓ} (get_opt : Text → G → Interface → ℕ → GetOpt G)
    (process : ℤ → Method S (Unit {0})) where
  abbrev pub called : G → Interface → ℕ → GetOpt G
  called g i errors = get_opt get_supported_options g i errors

  -- The loop, in as many rounds at most; `none` is no end in these.
  unfoldable pub parse_command_line :
      ℕ → G → Interface → ℕ → Pmda S → Option (Result (Bool × Interface) × Pmda S)
  unfolding get_supported_options
  parse_command_line zero g i errors s = none
  parse_command_line (suc fuel) g i errors s =
      let o = called g i errors in
      elim o.returned [
        | none ↦ some (ok (o.error_count == 0, o.interface), s)
        | some c ↦ elim (process c s).0 [
          | ok _ ↦ parse_command_line fuel o.position o.interface o.error_count (process c s).1
          | err e ↦ some (err e, (process c s).1)
        ]
      ]

  -- The rounds of the loop, one by one, to its end.
  pub data Rounds : G → Interface → ℕ → Pmda S → Result (Bool × Interface) × Pmda S → Type ℓ where
    at_eof :
        {g : G} {i : Interface} {errors : ℕ} {s : Pmda S}
        → (called g i errors).returned ≡ none
        → Rounds g i errors s
            (ok ((called g i errors).error_count == 0, (called g i errors).interface), s)
    thrown :
        {g : G} {i : Interface} {errors : ℕ} {s : Pmda S} {c : ℤ} {e : Thrown}
        → (called g i errors).returned ≡ some c
        → (process c s).0 ≡ err e
        → Rounds g i errors s (err e, (process c s).1)
    processed :
        {g : G} {i : Interface} {errors : ℕ} {s : Pmda S} {c : ℤ}
        {r : Result (Bool × Interface) × Pmda S}
        → (called g i errors).returned ≡ some c
        → (process c s).0 ≡ ok tt
        → Rounds
            (called g i errors).position
            (called g i errors).interface
            (called g i errors).error_count
            (process c s).1
            r
        → Rounds g i errors s r

  Result-cases {κ} :
      {A : Type κ} (r : Result A) → ((a : A) × (r ≡ ok a)) ⊎ ((e : Thrown) × (r ≡ err e))
  Result-cases (ok a) = inl (a, refl)
  Result-cases (err e) = inr (e, refl)

  -- Where every call of pmdaGetOpt that does not return EOF leaves less of the arguments, the loop
  -- ends: one round more than there is of them is enough, and the result is that of its rounds.
  pub parse_command_line-Rounds :
      (left : G → ℕ)
      → ((g : G) (i : Interface) (errors : ℕ) (c : ℤ)
          → (called g i errors).returned ≡ some c
          → left (called g i errors).position < left g)
      → (fuel : ℕ) (g : G) (i : Interface) (errors : ℕ) (s : Pmda S) → left g < fuel
      → (r : Result (Bool × Interface) × Pmda S) × (parse_command_line fuel g i errors s ≡ some r)
        × Rounds g i errors s r
  unfolding parse_command_line
  parse_command_line-Rounds left less zero g i errors s h = ground arith
  parse_command_line-Rounds left less (suc fuel) g i errors s h =
      elim (Option-cases (called g i errors).returned) [
        | inl e ↦ (_, rw (parse_command_line, e) refl, at_eof e)
        | inr (c, e) ↦ elim (Result-cases (process c s).0) [
          | inr (x, f) ↦ (_, rw (parse_command_line, e, f) refl, thrown e f)
          | inl (_, f) ↦
              let (r, run, rounds) =
                parse_command_line-Rounds left less fuel (called g i errors).position
                  (called g i errors).interface (called g i errors).error_count (process c s).1
                  (omega (arith, less g i errors c e)) in
              (r, rw (parse_command_line, e, f) run, processed e f rounds)
        ]
      ]
