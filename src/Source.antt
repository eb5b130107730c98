-- ===== src/Source.antt =====
-- compiler/include/kai/source and compiler/src/source: offsets into files, and their lines.
pub mod Location
pub mod Lines
pub mod Text
