-- ===== src/Source/Text.antt =====
-- `text` and `lineText` of compiler/src/source/SourceManager.cpp, for the contents of one buffer.
use kai_cc.Base.{ℕ, ◌+◌, ◌-◌, [], ◌∷◌, Bytes, length, take, drop, get_or, ltb, ◌==◌, if◌then◌else◌}
use kai_cc.Source.Lines.{line_starts}
use kai_cc.Source.Location.{SourceSpan}

-- `std::string_view::substr`, from a position in the text on.
abbrev pub substr : Bytes → ℕ → ℕ → Bytes
substr contents start count = take count (drop start contents)

unfoldable pub text : Bytes → SourceSpan → Bytes
text contents span = substr contents span.begin.offset (span.end.offset - span.begin.offset)

-- A last carriage return is taken off.
unfoldable pub without_return : Bytes → Bytes
without_return [] = []
without_return (c ∷ []) = if c == b'\r' then [] else c ∷ []
without_return (c ∷ d ∷ cs) = c ∷ without_return (d ∷ cs)

-- The line feed itself is not in the line; the last line ends with the buffer.
unfoldable pub line_text : Bytes → ℕ → Bytes
line_text contents line =
    let starts = line_starts contents in
    let line_index = line - 1 in
    let start = get_or starts line_index 0 in
    let end =
      if ltb (line_index + 1) (length starts)
      then get_or starts (line_index + 1) 0 - 1
      else length contents in
    without_return (substr contents start (end - start))
