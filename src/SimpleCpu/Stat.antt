-- ===== src/SimpleCpu/Stat.antt =====
-- What load_cpu_ticks (example/simplecpu/simplecpu.cpp) makes of the text of /proc/stat, with the
-- standard library's std::getline and its operator>> for uint64_t.
use pcp_pmda_cpp.Base.{
  ℕ, ◌≡◌, refl, zero, suc, ◌+◌, ◌-◌, ◌*◌, ◌%◌, ◌^◌, Bool, true, false, ltb, ◌==◌, if◌then◌else◌,
  Text, codes, text_eq, is_space, is_digit, List, [], ◌∷◌, take, length, Option, none, some,
  or_else,
}
use pcp_pmda_cpp.Base.Streams.{getlines}

-- cpu_info_type.
pub record CpuInfo : Type 0 where
  pub label : Text
  pub ticks : List ℕ

-- `line.find(' ')`, as what precedes the first space, and the text from there.
unfoldable pub split_space : Text → Option (Text × Text)
split_space [] = none
split_space (a ∷ s) =
    let later = split_space s in
    if a == b' '
    then some ([], a ∷ s)
    else elim later [ none ↦ none | some p ↦ some (a ∷ p.0, p.1) ]

unfoldable pub skip_spaces : Text → Text
skip_spaces [] = []
skip_spaces (a ∷ s) = let rest = skip_spaces s in if is_space a then rest else a ∷ s

-- The digits at the front, as their value, where there are any, with the value before them.
unfoldable pub read_digits : Text → Option ℕ → Option ℕ × Text
read_digits [] value = (value, [])
read_digits (a ∷ s) value =
    let rest = read_digits s (some ((10 * or_else value 0) + (a - b'0'))) in
    if is_digit a then rest else (value, a ∷ s)

-- The stream fails without digits, and on a value that does not fit.
abbrev pub fitting : Bool → Option ℕ × Text → Option (ℕ × Text)
fitting negative (none, s) = none
fitting negative (some n, s) =
    if ltb n (2 ^ 64) then some ((if negative then (2 ^ 64 - n) % 2 ^ 64 else n), s) else none

unfoldable pub read_signed : Text → Option (ℕ × Text)
unfolding read_digits
read_signed [] = none
read_signed (a ∷ s) =
    if a == b'-'
    then fitting true (read_digits s none)
    else if a == b'+'
    then fitting false (read_digits s none)
    else fitting false (read_digits (a ∷ s) none)

-- `stream >> tick_count`: the value and what is left, or a failed stream.
unfoldable pub extract : Text → Option (ℕ × Text)
unfolding skip_spaces read_signed
extract s = read_signed (skip_spaces s)

-- `for (uint64_t tick_count; stream >> tick_count;)`, on as many rounds at most.
unfoldable pub read_ticks : ℕ → Text → List ℕ
unfolding extract
read_ticks zero s = []
read_ticks (suc fuel) s = elim (extract s) [ none ↦ [] | some (n, rest) ↦ n ∷ read_ticks fuel rest ]

-- The body of the loop over the lines: what it adds to cpu_info. Each round of the inner loop
-- takes a character of the rest of the line, so that one round more than it has is enough.
unfoldable pub parse_line : Text → Option CpuInfo
unfolding split_space read_ticks
parse_line line =
    if text_eq (take 3 line) (codes "cpu")
    then elim (split_space line) [
      | none ↦ none
      | some (label, rest) ↦
          some (record { label = label; ticks = read_ticks (suc (length rest)) rest })
    ]
    else none

unfoldable pub parse_lines : List Text → List CpuInfo
unfolding parse_line
parse_lines [] = []
parse_lines (line ∷ lines) = elim (parse_line line) [
  | none ↦ parse_lines lines
  | some info ↦ info ∷ parse_lines lines
]

parse_example :
    parse_lines (getlines (codes "cpu  10 2\ncpu0 10 x 2\nintr 5\ncpu1\ncpu2 -1"))
    ≡ record { label = codes "cpu"; ticks = 10 ∷ 2 ∷ [] }
      ∷ record { label = codes "cpu0"; ticks = 10 ∷ [] }
      ∷ record { label = codes "cpu2"; ticks = 0xffff_ffff_ffff_ffff ∷ [] }
      ∷ []
unfolding parse_lines getlines skip_spaces is_space read_digits read_signed
parse_example = refl
