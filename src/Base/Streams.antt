-- ===== src/Base/Streams.antt =====
-- std::getline, and the pieces of a line.
use pcp_pmda_cpp.Base.Tests.{◌==◌, if◌then◌else◌}
use pcp_pmda_cpp.Base.Chars.{Text}
use Prim.Native.Nat.{ℕ}
use mathlib.Core.List.{List, [], ◌∷◌}

abbrev pub cons_first : ℕ → List Text → List Text
cons_first a [] = (a ∷ []) ∷ []
cons_first a (line ∷ lines) = (a ∷ line) ∷ lines

-- The lines that std::getline reads, the last one also where the text does not end in a newline.
unfoldable pub getlines : Text → List Text
getlines [] = []
getlines (a ∷ s) = let lines = getlines s in if a == b'\n' then [] ∷ lines else cons_first a lines

-- The pieces of a line between the characters `c`, one more than there are of those.
unfoldable pub split_at : ℕ → Text → List Text
split_at c [] = [] ∷ []
split_at c (a ∷ s) =
    let pieces = split_at c s in if a == c then [] ∷ pieces else cons_first a pieces
