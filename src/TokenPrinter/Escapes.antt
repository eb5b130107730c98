-- ===== src/TokenPrinter/Escapes.antt =====
-- What `escapeLexeme` of compiler/src/cli/TokenPrinter.cpp writes, and how it is read back.
use kai_cc.Base.{
  ℕ, zero, suc, ◌+◌, ◌-◌, ◌*◌, ◌/◌, ◌%◌, ◌≤◌, ◌<◌, ◌≡◌, refl, ap, arith, [], ◌∷◌, ◌++◌, Bytes,
  get_or, length, sym, ◌∙◌, leb, ◌==◌, if◌then◌else◌,
}
use kai_cc.TokenPrinter.{digits, to_hex_digit, escape_byte, escape_lexeme}

abbrev pub AllBelow : ℕ → Bytes → Type 0
AllBelow n [] = Unit
AllBelow n (c ∷ cs) = (c < n) × AllBelow n cs

unfoldable hex_value : ℕ → ℕ
hex_value d = if leb d b'9' then d - b'0' else d - 55

-- A digit is printable, and it has its value.
digit_lem :
    (n : ℕ)
    → n < 16
    → (hex_value (get_or digits n 0) ≡ n) × (32 ≤ get_or digits n 0) × (get_or digits n 0 ≤ 126)
unfolding hex_value
digit_lem zero h = (refl, omega arith, omega arith)
digit_lem (suc zero) h = (refl, omega arith, omega arith)
digit_lem (suc (suc zero)) h = (refl, omega arith, omega arith)
digit_lem (suc (suc (suc zero))) h = (refl, omega arith, omega arith)
digit_lem (suc (suc (suc (suc zero)))) h = (refl, omega arith, omega arith)
digit_lem (suc (suc (suc (suc (suc zero))))) h = (refl, omega arith, omega arith)
digit_lem (suc (suc (suc (suc (suc (suc zero)))))) h = (refl, omega arith, omega arith)
digit_lem (suc (suc (suc (suc (suc (suc (suc zero))))))) h = (refl, omega arith, omega arith)
digit_lem (suc (suc (suc (suc (suc (suc (suc (suc zero)))))))) h = (refl, omega arith, omega arith)
digit_lem (suc (suc (suc (suc (suc (suc (suc (suc (suc zero))))))))) h =
    (refl, omega arith, omega arith)
digit_lem (suc (suc (suc (suc (suc (suc (suc (suc (suc (suc zero)))))))))) h =
    (refl, omega arith, omega arith)
digit_lem (suc (suc (suc (suc (suc (suc (suc (suc (suc (suc (suc zero))))))))))) h =
    (refl, omega arith, omega arith)
digit_lem (suc (suc (suc (suc (suc (suc (suc (suc (suc (suc (suc (suc zero)))))))))))) h =
    (refl, omega arith, omega arith)
digit_lem (suc (suc (suc (suc (suc (suc (suc (suc (suc (suc (suc (suc (suc zero))))))))))))) h =
    (refl, omega arith, omega arith)
digit_lem (suc (suc (suc (suc (suc (suc (suc (suc (suc (suc (suc (suc (suc (suc zero))))))))))))))
      h =
    (refl, omega arith, omega arith)
digit_lem
      (suc (suc (suc (suc (suc (suc (suc (suc (suc (suc (suc (suc (suc (suc (suc zero)))))))))))))))
      h =
    (refl, omega arith, omega arith)
digit_lem
      (suc
        (suc (suc (suc (suc (suc (suc (suc (suc (suc (suc (suc (suc (suc (suc (suc n))))))))))))))))
      h =
    absurd (omega (arith, h))

-- The byte that an escape stands for.
escaped_value : Bytes → ℕ
escaped_value bs =
    let d = get_or bs 0 0 in
    if d == b'n'
    then b'\n'
    else if d == b'r'
    then b'\r'
    else if d == b't'
    then b'\t'
    else if d == b'x'
    then hex_value (get_or bs 1 0) * 16 + hex_value (get_or bs 2 0)
    else d

-- The first byte that was escaped.
first_value : Bytes → ℕ
first_value [] = 0
first_value (c ∷ cs) = if c == b'\\' then escaped_value cs else c

hex_value-to_hex_digit : (n : ℕ) → hex_value (to_hex_digit n) ≡ n % 16
unfolding to_hex_digit
hex_value-to_hex_digit n = (digit_lem (n % 16) (omega arith)).0

first_value-escape_byte : (c : ℕ) (rest : Bytes) → c < 256 → first_value (escape_byte c ++ rest) ≡ c
unfolding first_value escaped_value escape_byte
first_value-escape_byte c rest h =
    let high = hex_value-to_hex_digit (c / 16) in let low = hex_value-to_hex_digit c in ground arith

append-cancel : (xs : Bytes) {ys zs : Bytes} → xs ++ ys ≡ xs ++ zs → ys ≡ zs
append-cancel [] e = e
append-cancel (x ∷ xs) e = append-cancel xs (cc e)

escape_byte-not_empty : (c : ℕ) (rest : Bytes) → 0 < length (escape_byte c ++ rest)
unfolding escape_byte
escape_byte-not_empty c rest = ground arith

-- Two texts of bytes below 256 that escapeLexeme writes alike are equal: what is printed for a
-- token determines its bytes.
pub escape_lexeme-injective :
    (xs ys : Bytes)
    → AllBelow 256 xs
    → AllBelow 256 ys
    → escape_lexeme xs ≡ escape_lexeme ys
    → xs ≡ ys
unfolding escape_lexeme
escape_lexeme-injective [] [] h k e = refl
escape_lexeme-injective [] (d ∷ ds) h k e =
    absurd (omega (arith, ap length e, escape_byte-not_empty d (escape_lexeme ds)))
escape_lexeme-injective (c ∷ cs) [] h k e =
    absurd (omega (arith, ap length e, escape_byte-not_empty c (escape_lexeme cs)))
escape_lexeme-injective (c ∷ cs) (d ∷ ds) h k e =
    let same : c ≡ d =
      sym (first_value-escape_byte c (escape_lexeme cs) h.0)
      ∙ ap first_value e
      ∙ first_value-escape_byte d (escape_lexeme ds) k.0 in
    let rest : escape_byte c ++ escape_lexeme cs ≡ escape_byte c ++ escape_lexeme ds =
      e ∙ ap (λ x. escape_byte x ++ escape_lexeme ds) (sym same) in
    let later = escape_lexeme-injective cs ds h.1 k.1 (append-cancel (escape_byte c) rest) in
    cc (same, later)

abbrev pub AllPrintable : Bytes → Type 0
AllPrintable [] = Unit
AllPrintable (c ∷ cs) = (32 ≤ c) × (c ≤ 126) × AllPrintable cs

to_hex_digit-bounds : (n : ℕ) → (32 ≤ to_hex_digit n) × (to_hex_digit n ≤ 126)
unfolding to_hex_digit
to_hex_digit-bounds n = let digit = digit_lem (n % 16) (omega arith) in (digit.1, digit.2)

escape_byte-AllPrintable :
    (c : ℕ) (rest : Bytes) → AllPrintable rest → AllPrintable (escape_byte c ++ rest)
unfolding escape_byte
escape_byte-AllPrintable c rest h =
    let high = to_hex_digit-bounds (c / 16) in let low = to_hex_digit-bounds c in ground arith

-- Everything that escapeLexeme writes is printable ASCII, from 32 to 126, whatever the bytes
-- of the token are.
pub escape_lexeme-AllPrintable : (bs : Bytes) → AllPrintable (escape_lexeme bs)
unfolding escape_lexeme
escape_lexeme-AllPrintable [] = tt
escape_lexeme-AllPrintable (c ∷ cs) =
    escape_byte-AllPrintable c (escape_lexeme cs) (escape_lexeme-AllPrintable cs)
