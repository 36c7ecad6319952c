-- ===== src/SimpleCpu/RoundTrip.antt =====
-- Reading back a text of the form of /proc/stat (example/simplecpu/simplecpu.cpp).
use pcp_pmda_cpp.Base.{
  ℕ, zero, suc, ◌+◌, ◌<◌, ◌^◌, ◌≡◌, refl, ap, ◌∙◌, arith, false, ◌==◌, Text, codes, take, text_eq,
  decimal, List, [], ◌∷◌, ◌++◌, All, length, replicate, none, some,
}
use pcp_pmda_cpp.Base.Digits.{emit-All}
use pcp_pmda_cpp.Base.Streams.{getlines}
use pcp_pmda_cpp.SimpleCpu.Stat.{CpuInfo, split_space, parse_line, parse_lines}
use pcp_pmda_cpp.SimpleCpu.Numbers.{ticks_text, read_ticks-text}

-- A line of /proc/stat: one for a processor, its label behind "cpu", with spaces and then its
-- counts, or another one.
pub data StatLine : Type 0 where
  processor : Text → ℕ → List ℕ → StatLine
  other : Text → StatLine

abbrev pub line_text : StatLine → Text
line_text (processor suffix k ns) = (codes "cpu" ++ suffix) ++ (replicate k b' ' ++ ticks_text ns)
line_text (other line) = line

abbrev pub stat_text : List StatLine → Text
stat_text [] = []
stat_text (l ∷ ls) = line_text l ++ b'\n' ∷ stat_text ls

-- What the lines tell of the processors.
abbrev pub told : List StatLine → List CpuInfo
told [] = []
told (processor suffix k ns ∷ ls) = record { label = codes "cpu" ++ suffix; ticks = ns } ∷ told ls
told (other line ∷ ls) = told ls

-- A label has no space; there is one between it and the counts; and no line has a newline.
abbrev pub IsStatLine : StatLine → Type 0
IsStatLine (processor suffix k ns) =
    All (λ a. (a == b' ') ≡ false) suffix
    × All (λ a. (a == b'\n') ≡ false) suffix
    × (0 < k + length ns)
    × All (λ n. n < 2 ^ 64) ns
IsStatLine (other line) =
    (text_eq (take 3 line) (codes "cpu") ≡ false) × All (λ a. (a == b'\n') ≡ false) line

split_space-append :
    (label rest : Text)
    → All (λ a. (a == b' ') ≡ false) label
    → split_space (label ++ b' ' ∷ rest) ≡ some (label, b' ' ∷ rest)
unfolding split_space
split_space-append [] rest h = refl
split_space-append (a ∷ label) rest h =
    rw (split_space, h.0, split_space-append label rest h.1) refl

getlines-append :
    (line rest : Text)
    → All (λ a. (a == b'\n') ≡ false) line
    → getlines (line ++ b'\n' ∷ rest) ≡ line ∷ getlines rest
unfolding getlines
getlines-append [] rest h = refl
getlines-append (a ∷ line) rest h = rw (getlines, h.0, getlines-append line rest h.1) refl

-- Where a line has spaces or counts behind the label, a space is the first of it.
spaced :
    (k : ℕ) (ns : List ℕ)
    → 0 < k + length ns
    → (rest : Text) × (replicate k b' ' ++ ticks_text ns ≡ b' ' ∷ rest)
spaced zero [] h = ground arith
spaced zero (n ∷ ns) h = (_, refl)
spaced (suc k) ns h = (_, refl)

split_space-suffix :
    (suffix : Text) (k : ℕ) (ns : List ℕ)
    → All (λ a. (a == b' ') ≡ false) suffix
    → 0 < k + length ns
    → split_space (suffix ++ (replicate k b' ' ++ ticks_text ns))
      ≡ some (suffix, replicate k b' ' ++ ticks_text ns)
split_space-suffix suffix k ns h l =
    let (rest, e) = spaced k ns l in rw e (split_space-append suffix rest h)

parse_line-processor :
    (suffix : Text) (k : ℕ) (ns : List ℕ)
    → IsStatLine (processor suffix k ns)
    → parse_line (line_text (processor suffix k ns))
      ≡ some (record { label = codes "cpu" ++ suffix; ticks = ns })
unfolding parse_line split_space
parse_line-processor suffix k ns h =
    rw (split_space-suffix suffix k ns h.0 h.2, read_ticks-text k ns h.3) refl

parse_line-other : (line : Text) → IsStatLine (other line) → parse_line line ≡ none
unfolding parse_line
parse_line-other line h = rw h.0 refl

All-append {ℓ κ} :
    {A : Type ℓ} (P : A → Type κ) (xs ys : List A) → All P xs → All P ys → All P (xs ++ ys)
All-append P [] ys a b = b
All-append P (x ∷ xs) ys a b = (a.0, All-append P xs ys a.1 b)

abbrev NoNewlineAt : ℕ → Type 0
NoNewlineAt a = (a == b'\n') ≡ false

abbrev NoNewline : Text → Type 0
NoNewline = All NoNewlineAt

replicate-NoNewline : (k : ℕ) → NoNewline (replicate k b' ')
replicate-NoNewline zero = tt
replicate-NoNewline (suc k) = (refl, replicate-NoNewline k)

ticks_text-NoNewline : (ns : List ℕ) → NoNewline (ticks_text ns)
unfolding decimal
ticks_text-NoNewline [] = tt
ticks_text-NoNewline (n ∷ ns) = (
  refl,
  All-append NoNewlineAt (decimal n) (ticks_text ns)
      (emit-All NoNewlineAt (λ d h. ground arith) (suc n) n [] tt) (ticks_text-NoNewline ns),
)

line_text-NoNewline : (l : StatLine) → IsStatLine l → NoNewline (line_text l)
line_text-NoNewline (processor suffix k ns) h =
    All-append NoNewlineAt (codes "cpu" ++ suffix) _
      (All-append NoNewlineAt (codes "cpu") suffix (refl, (refl, (refl, tt))) h.1)
      (All-append NoNewlineAt (replicate k b' ') (ticks_text ns) (replicate-NoNewline k)
        (ticks_text-NoNewline ns))
line_text-NoNewline (other line) h = h.1

parse_lines-line :
    (l : StatLine) (ls : List StatLine) (lines : List Text)
    → IsStatLine l
    → parse_lines lines ≡ told ls
    → parse_lines (line_text l ∷ lines) ≡ told (l ∷ ls)
unfolding parse_lines
parse_lines-line (processor suffix k ns) ls lines h e =
    rw (parse_lines, parse_line-processor suffix k ns h, e) refl
parse_lines-line (other line) ls lines h e = rw (parse_lines, parse_line-other line h, e) refl

-- Reading a text of lines of that form gives the label and the counts of every processor's line,
-- in order, and nothing else.
pub parse_lines-stat_text :
    (ls : List StatLine) → All IsStatLine ls → parse_lines (getlines (stat_text ls)) ≡ told ls
unfolding parse_lines getlines
parse_lines-stat_text [] h = refl
parse_lines-stat_text (l ∷ ls) h =
    ap parse_lines (getlines-append (line_text l) (stat_text ls) (line_text-NoNewline l h.0))
    ∙ parse_lines-line l ls (getlines (stat_text ls)) h.0 (parse_lines-stat_text ls h.1)
