-- ===== src/Lexer/Consumed.antt =====
-- The bytes that the scanners of compiler/src/lexer/Lexer.cpp take off the front.
use kai_cc.Base.{
  ℕ, ◌+◌, Bool, true, ◌==◌, Bytes, [], ◌∷◌, ◌++◌, ◌≡◌, refl, ap, arith, length, length-append, inl,
  inr, Bool-cases, ◌&&◌, sym, ◌∙◌, append_assoc,
}
use kai_cc.Lexer.Chars.{
  is_digit, is_identifier_continue, is_supported_string_escape_char, is_supported_char_escape_char,
}
use kai_cc.Lexer.Cursor.{Cursor, peek, peek_next, skip_while, advance}
use kai_cc.Lexer.Scan.{
  scan_identifier_or_keyword, scan_fraction, scan_number, string_loop, scan_string, char_loop,
  scan_char, operator_kind, scan_operator_or_punctuation, continues_malformed,
}
use kai_cc.Lexer.Next.{scan_content}

-- From offset `o` with the bytes `bs` left, the bytes `read` were taken.
pub record Consumed (o : ℕ) (bs : Bytes) (d : Cursor) : Type 0 where
  pub read : Bytes
  pub splits : bs ≡ read ++ d.rest
  pub moved : d.offset ≡ o + length read

pub Consumed-none : (o : ℕ) (bs : Bytes) → Consumed o bs (record { offset = o; rest = bs })
Consumed-none o bs = record { read = []; splits = refl; moved = omega arith }

pub Consumed-byte :
    {o : ℕ} (b : ℕ) {bs : Bytes} {d : Cursor} → Consumed (o + 1) bs d → Consumed o (b ∷ bs) d
Consumed-byte b c = record {
  read = b ∷ c.read;
  splits = ap (◌∷◌ b) c.splits;
  moved = omega (arith, c.moved);
}

pub Consumed-pair :
    {o : ℕ} (a b : ℕ) {bs : Bytes} {d : Cursor} → Consumed (o + 2) bs d → Consumed o (a ∷ b ∷ bs) d
Consumed-pair a b c = record {
  read = a ∷ b ∷ c.read;
  splits = ap (λ xs. a ∷ b ∷ xs) c.splits;
  moved = omega (arith, c.moved);
}

pub skip_while-Consumed :
    (test : ℕ → ℕ → Bool) (o : ℕ) (bs : Bytes) → Consumed o bs (skip_while test o bs)
unfolding skip_while
skip_while-Consumed test o [] = Consumed-none o []
skip_while-Consumed test o (c ∷ cs) = elim (Bool-cases (test c (peek cs))) [
  | inl e ↦ rw e (Consumed-byte c (skip_while-Consumed test (o + 1) cs))
  | inr e ↦ rw e (Consumed-none o (c ∷ cs))
]

string_loop-Consumed :
    (valid : Bool) (o : ℕ) (bs : Bytes) → Consumed o bs (string_loop valid o bs).1
unfolding string_loop
string_loop-Consumed valid o [] = Consumed-none o []
string_loop-Consumed valid o (c ∷ []) =
    ground (arith, Consumed-none o (c ∷ []), Consumed-byte c (Consumed-none (o + 1) []))
string_loop-Consumed valid o (c ∷ d ∷ cs) = ground (
  arith,
  Consumed-none o (c ∷ d ∷ cs),
  Consumed-byte c (Consumed-none (o + 1) (d ∷ cs)),
  Consumed-byte c (string_loop-Consumed valid (o + 1) (d ∷ cs)),
  Consumed-pair c d (string_loop-Consumed (valid && is_supported_string_escape_char d) (o + 2) cs),
)

char_loop-Consumed :
    (valid : Bool) (units o : ℕ) (bs : Bytes) → Consumed o bs (char_loop valid units o bs).2
unfolding char_loop
char_loop-Consumed valid units o [] = Consumed-none o []
char_loop-Consumed valid units o (c ∷ []) =
    ground (arith, Consumed-none o (c ∷ []), Consumed-byte c (Consumed-none (o + 1) []))
char_loop-Consumed valid units o (c ∷ d ∷ cs) =
    let supported = valid && is_supported_char_escape_char d in
    ground (
      arith,
      Consumed-none o (c ∷ d ∷ cs),
      Consumed-byte c (Consumed-none (o + 1) (d ∷ cs)),
      Consumed-byte c (char_loop-Consumed valid (units + 1) (o + 1) (d ∷ cs)),
      Consumed-pair c d (char_loop-Consumed supported (units + 1) (o + 2) cs),
    )

pub Consumed-trans :
    {o : ℕ} {bs : Bytes} (c : Cursor) {d : Cursor}
    → Consumed o bs c
    → Consumed c.offset c.rest d
    → Consumed o bs d
Consumed-trans c p q = record {
  read = p.read ++ q.read;
  splits = p.splits ∙ ap (λ xs. p.read ++ xs) q.splits ∙ sym (append_assoc p.read q.read _);
  moved = omega (arith, p.moved, q.moved, length-append p.read q.read);
}

advance-Consumed : (o : ℕ) (bs : Bytes) → Consumed o bs (advance (record { offset = o; rest = bs }))
advance-Consumed o [] = Consumed-none o []
advance-Consumed o (b ∷ bs) = Consumed-byte b (Consumed-none (o + 1) bs)

module _ (o c : ℕ) (cs : Bytes) where
  abbrev here : Cursor
  here = record { offset = o; rest = c ∷ cs }

  scan_identifier-Consumed : Consumed (o + 1) cs (scan_identifier_or_keyword here).1
  unfolding scan_identifier_or_keyword
  scan_identifier-Consumed = skip_while-Consumed (λ x _. is_identifier_continue x) (o + 1) cs

  digits-Consumed :
      is_digit c ≡ true → Consumed (o + 1) cs (skip_while (λ d _. is_digit d) o (c ∷ cs))
  unfolding skip_while
  digits-Consumed h = rw h ((skip_while-Consumed (λ d _. is_digit d) (o + 1) cs))

  scan_string-Consumed : Consumed (o + 1) cs (scan_string here).1
  unfolding scan_string
  scan_string-Consumed = string_loop-Consumed true (o + 1) cs

  scan_char-Consumed : Consumed (o + 1) cs (scan_char here).1
  unfolding scan_char
  scan_char-Consumed = char_loop-Consumed true 0 (o + 1) cs

  scan_operator-Consumed : Consumed (o + 1) cs (scan_operator_or_punctuation here).1
  unfolding scan_operator_or_punctuation
  scan_operator-Consumed = elim (Bool-cases (operator_kind c (peek cs)).1) [
    | inl two ↦ rw two (advance-Consumed (o + 1) cs)
    | inr one ↦ rw one (Consumed-none (o + 1) cs)
  ]

-- What stands behind the digits of a number.
scan_fraction-Consumed : (c : Cursor) → Consumed c.offset c.rest (scan_fraction c).1
unfolding scan_fraction
scan_fraction-Consumed c = elim (Bool-cases (peek c.rest == b'.' && is_digit (peek_next c.rest))) [
  | inl yes_float ↦ rw yes_float (
      Consumed-trans (advance c) (advance-Consumed c.offset c.rest)
        (skip_while-Consumed (λ d _. is_digit d) _ _))
  | inr no_float ↦ rw no_float (Consumed-none c.offset c.rest)
]

scan_number-Consumed :
    (o c : ℕ) (cs : Bytes)
    → is_digit c ≡ true
    → Consumed (o + 1) cs (scan_number (record { offset = o; rest = c ∷ cs })).1
unfolding scan_number
scan_number-Consumed o c cs h =
    let digits = skip_while (λ d _. is_digit d) o (c ∷ cs) in
    let fraction = (scan_fraction digits).1 in
    let number = Consumed-trans digits (digits-Consumed o c cs h) (scan_fraction-Consumed digits) in
    ground (
      arith,
      number,
      Consumed-trans fraction number
          (skip_while-Consumed continues_malformed fraction.offset fraction.rest),
    )

-- A token's scanner takes the first byte, whichever it is.
pub scan_content-Consumed :
    (o c : ℕ) (cs : Bytes)
    → Consumed (o + 1) cs (scan_content c (record { offset = o; rest = c ∷ cs })).1
unfolding scan_content
scan_content-Consumed o c cs = ground (
  arith,
  scan_identifier-Consumed o c cs,
  scan_number-Consumed o c cs,
  scan_string-Consumed o c cs,
  scan_char-Consumed o c cs,
  scan_operator-Consumed o c cs,
)
