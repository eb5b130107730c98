-- ===== src/Source/Lines.antt =====
-- The line index of compiler/src/source/SourceManager.cpp: `ensureLineIndex` and `lineColumn`, for
-- the contents of one buffer.
pub mod Columns
use kai_cc.Base.{
  ℕ, suc, ◌+◌, ◌-◌, true, false, List, [], ◌∷◌, Bytes, get_or, ltb, ◌==◌, if◌then◌else◌,
}

-- The loop of `ensureLineIndex`, from offset `i` on: each line feed starts a line behind it.
unfoldable pub starts_from : ℕ → Bytes → List ℕ
starts_from i [] = []
starts_from i (c ∷ cs) =
    let later = starts_from (i + 1) cs in if c == b'\n' then (i + 1) ∷ later else later

unfoldable pub line_starts : Bytes → List ℕ
line_starts contents = 0 ∷ starts_from 0 contents

-- `std::upper_bound`, as a distance from the beginning: the first element that is greater.
unfoldable pub upper_bound : List ℕ → ℕ → ℕ
upper_bound [] v = 0
upper_bound (x ∷ xs) v = let later = upper_bound xs v in if ltb v x then 0 else suc later

pub record LineColumn : Type 0 where
  pub line : ℕ
  pub column : ℕ

-- The first line start is 0, so an index of 0 does not come before the subtraction.
unfoldable pub line_column : Bytes → ℕ → LineColumn
line_column contents offset =
    let starts = line_starts contents in
    let line_index = upper_bound starts offset - 1 in
    record { line = line_index + 1; column = offset - get_or starts line_index 0 + 1 }
