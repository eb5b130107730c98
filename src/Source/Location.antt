-- ===== src/Source/Location.antt =====
-- compiler/include/kai/source/SourceLocation.hpp: file ids, locations and spans. The sentinel
-- `numeric_limits<uint32_t>::max()` marks what is default-constructed.
use kai_cc.Base.{ℕ, ◌-◌, ◌^◌, Bool, true, not, ◌&&◌, ◌==◌, leb, if◌then◌else◌}

abbrev pub invalid_id : ℕ
invalid_id = 2 ^ 32 - 1

abbrev pub invalid_offset : ℕ
invalid_offset = 2 ^ 32 - 1

pub record SourceLocation : Type 0 where
  pub file : ℕ
  pub offset : ℕ

unfoldable pub location_is_valid : SourceLocation → Bool
location_is_valid l = not (l.file == invalid_id) && not (l.offset == invalid_offset)

pub record SourceSpan : Type 0 where
  pub begin : SourceLocation
  pub end : SourceLocation

abbrev pub point : SourceLocation → SourceSpan
point l = record { begin = l; end = l }

-- `isWellFormed`, the assertion of the constructor.
unfoldable pub is_well_formed : SourceLocation → SourceLocation → Bool
unfolding location_is_valid
is_well_formed b e =
    if not (location_is_valid b) && not (location_is_valid e)
    then true
    else (location_is_valid b && location_is_valid e && b.file == e.file && leb b.offset e.offset)

unfoldable pub span_is_valid : SourceSpan → Bool
unfolding is_well_formed location_is_valid
span_is_valid s = is_well_formed s.begin s.end && location_is_valid s.begin
