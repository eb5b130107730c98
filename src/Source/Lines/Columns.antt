-- ===== src/Source/Lines/Columns.antt =====
-- What a line and a column are, read off the bytes in front of an offset, for `lineColumn` of
-- compiler/src/source/SourceManager.cpp.
use kai_cc.Base.{
  ℕ, zero, suc, ◌+◌, ◌-◌, ◌≤◌, ◌<◌, ◌≡◌, Bool-cases, inl, inr, refl, arith, List, [], ◌∷◌, Bytes,
  get_or, ◌==◌, if◌then◌else◌, ap, ◌∙◌,
}
use kai_cc.Source.Lines.{starts_from, line_starts, upper_bound, line_column}

-- The line feeds among the first `n` bytes.
unfoldable pub feeds_before : ℕ → Bytes → ℕ
feeds_before n [] = 0
feeds_before zero (c ∷ cs) = 0
feeds_before (suc n) (c ∷ cs) =
    let later = feeds_before n cs in if c == b'\n' then suc later else later

-- The bytes of the first `n` behind the last line feed, where `k` stand in front of them.
unfoldable pub since_feed : ℕ → ℕ → Bytes → ℕ
since_feed k n [] = k + n
since_feed k zero (c ∷ cs) = k
since_feed k (suc n) (c ∷ cs) =
    let on_new_line = since_feed 0 n cs in
    let on_this_line = since_feed (suc k) n cs in if c == b'\n' then on_new_line else on_this_line

upper_bound-later : (x v : ℕ) (xs : List ℕ) → v < x → upper_bound (x ∷ xs) v ≡ 0
unfolding upper_bound
upper_bound-later x v xs h = ground arith

upper_bound-earlier :
    (x v : ℕ) (xs : List ℕ) → x ≤ v → upper_bound (x ∷ xs) v ≡ suc (upper_bound xs v)
unfolding upper_bound
upper_bound-earlier x v xs h = ground arith

-- No start of a line behind offset `i` is found for an offset up to it.
none_before : (i v : ℕ) (cs : Bytes) → v ≤ i → upper_bound (starts_from i cs) v ≡ 0
unfolding starts_from upper_bound
none_before i v [] h = refl
none_before i v (c ∷ cs) h = elim (Bool-cases (c == b'\n')) [
  | inl e ↦ rw e (upper_bound-later (i + 1) v _ (omega arith))
  | inr e ↦ rw e (none_before (i + 1) v cs (omega arith))
]

-- The index counts the line feeds.
upper_bound-feeds :
    (i n v : ℕ) (cs : Bytes) → v ≡ i + n → upper_bound (starts_from i cs) v ≡ feeds_before n cs
unfolding starts_from upper_bound feeds_before
upper_bound-feeds i n v [] h = refl
upper_bound-feeds i zero v (c ∷ cs) h = none_before i v (c ∷ cs) (omega arith)
upper_bound-feeds i (suc n) v (c ∷ cs) h =
    let later = upper_bound-feeds (i + 1) n v cs (omega arith) in
    elim (Bool-cases (c == b'\n')) [
      | inl e ↦ rw e (upper_bound-earlier (i + 1) v _ (omega arith) ∙ ap suc later)
      | inr e ↦ rw e later
    ]

-- The start of the line at that index, with what stands behind it.
start_at :
    (s k i n : ℕ) (cs : Bytes)
    → i ≡ s + k
    → get_or (s ∷ starts_from i cs) (feeds_before n cs) 0 + since_feed k n cs ≡ i + n
unfolding starts_from feeds_before since_feed
start_at s k i n [] h = omega arith
start_at s k i zero (c ∷ cs) h = omega arith
start_at s k i (suc n) (c ∷ cs) h = elim (Bool-cases (c == b'\n')) [
  | inl e ↦ rw e (omega (arith, start_at (i + 1) 0 (i + 1) n cs (omega arith)))
  | inr e ↦ rw e (omega (arith, start_at s (suc k) (i + 1) n cs (omega arith)))
]

-- For every buffer and offset, the line that lineColumn finds is one more than the line feeds
-- in front of the offset, and the column is one more than the distance from the last of them,
-- or from the beginning if there is none.
pub line_column-feeds :
    (contents : Bytes) (offset : ℕ)
    → ((line_column contents offset).line ≡ suc (feeds_before offset contents))
      × ((line_column contents offset).column ≡ suc (since_feed 0 offset contents))
unfolding line_column line_starts
line_column-feeds contents offset =
    let index = upper_bound-earlier 0 offset (starts_from 0 contents) (omega arith) in
    let count = upper_bound-feeds 0 offset offset contents (omega arith) in
    let found : upper_bound (0 ∷ starts_from 0 contents) offset - 1 ≡ feeds_before offset contents =
      omega (arith, index, count) in
    let start = start_at 0 0 0 offset contents (omega arith) in
    (rw found (omega arith), rw found (omega (arith, start)))
