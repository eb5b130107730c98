-- ===== src/Parser/Input.antt =====
-- The file that is being parsed, as the postconditions of the parser speak of it.
use kai_cc.Base.{ℕ, Bytes, length}
use kai_cc.Parser.State.{Parser, parser, advanced}

-- Its id and its size, and the state in which the parsing of it began.
pub record OpenFile : Type 0 where
  pub id : ℕ
  pub size : ℕ
  pub first : Parser

abbrev pub opened : ℕ → Bytes → OpenFile
opened file buffer = record { id = file; size = length buffer; first = parser file buffer }

-- The states that come up by reading one token after the other.
pub data IsReached (file : OpenFile) : Parser → Type 0 where
  begun : IsReached file file.first
  next : {p : Parser} → IsReached file p → IsReached file (advanced p)
