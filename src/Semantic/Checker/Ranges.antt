-- ===== src/Semantic/Checker/Ranges.antt =====
-- Integer literals in compiler/src/semantic/TypeChecker.cpp: which ones are accepted.
use kai_cc.Base.{
  ℕ, ◌+◌, ◌-◌, ◌*◌, ◌^◌, ◌<◌, ◌≤◌, Bool, true, false, Option, none, some, some-injective, [], ◌∷◌,
  Bytes, ◌≡◌, ◌≢◌, ◌↔◌, inl, inr, refl, ap, sym, arith, ltb, Bool-cases, Option-cases, subst,
}
use kai_cc.Lexer.Chars.{is_digit}
use kai_cc.Semantic.Analyzer.TypeNames.{from_chars, decode_array_length}
use kai_cc.Semantic.Checker.Literals.{
  Context, range_of_kind, fits, literal_target, magnitude_fits, decode_integer_magnitude,
  check_integer_literal_value,
}
use kai_cc.Semantic.Model.{SemanticModel}
use kai_cc.Semantic.Types.{
  ValueType, TypeKind, simple, kind_value, is_integer, is_signed_integer, is_unsigned_integer,
}
use kai_cc.Source.Location.{SourceSpan}

-- The bits of an integer type, and whether one of them is a sign.
abbrev pub width : TypeKind → Option (ℕ × Bool)
width TypeKind.i8 = some (8, true)
width TypeKind.i16 = some (16, true)
width TypeKind.i32 = some (32, true)
width TypeKind.i64 = some (64, true)
width TypeKind.u8 = some (8, false)
width TypeKind.u16 = some (16, false)
width TypeKind.u32 = some (32, false)
width TypeKind.u64 = some (64, false)
width _ = none

-- A number, or its negative, is a value of that many bits in two's complement, or without a sign.
abbrev pub IsRepresentable : Option (ℕ × Bool) → Bool → ℕ → Type 0
IsRepresentable none negative n = ⊥
IsRepresentable (some (bits, true)) true n = n ≤ 2 ^ (bits - 1)
IsRepresentable (some (bits, true)) false n = n < 2 ^ (bits - 1)
IsRepresentable (some (bits, false)) true n = ⊥
IsRepresentable (some (bits, false)) false n = n < 2 ^ bits

-- Digits, at least one, and their value in base ten.
abbrev pub AllDigits : Bytes → Type 0
AllDigits [] = Unit
AllDigits (c ∷ cs) = (is_digit c ≡ true) × AllDigits cs

abbrev pub number_after : ℕ → Bytes → ℕ
number_after n [] = n
number_after n (c ∷ cs) = number_after (n * 10 + (c - b'0')) cs

pub record IsNumber (digits : Bytes) : Type 0 where
  pub some_digit : digits ≢ []
  pub all_digits : AllDigits digits

number_after-grows : (n : ℕ) (cs : Bytes) → n ≤ number_after n cs
number_after-grows n [] = omega arith
number_after-grows n (c ∷ cs) = omega (arith, number_after-grows (n * 10 + (c - b'0')) cs)

-- What `std::from_chars` reads of a number that did not pass 64 bits yet.
from_chars-reads :
    (n : ℕ) (cs : Bytes) (k : ℕ)
    → n < 2 ^ 64
    → from_chars n cs ≡ some k
    → AllDigits cs × (number_after n cs ≡ k)
unfolding from_chars
from_chars-reads n [] k h e = (tt, some-injective _ _ e)
from_chars-reads n (c ∷ cs) k h e = elim (Bool-cases (is_digit c)) [
  | inr other ↦ cc (rw other at e)
  | inl digit ↦ elim (Bool-cases (ltb (n * 10 + (c - b'0')) (2 ^ 64))) [
    | inr wide ↦ cc (rw (digit, wide) at e)
    | inl small ↦
        let (all, value) =
          from_chars-reads (n * 10 + (c - b'0')) cs k (ground arith) (rw (digit, small) at e) in
        ((digit, all), value)
  ]
]

from_chars-accepts :
    (n : ℕ) (cs : Bytes)
    → AllDigits cs
    → number_after n cs < 2 ^ 64
    → from_chars n cs ≡ some (number_after n cs)
unfolding from_chars
from_chars-accepts n [] all small = refl
from_chars-accepts n (c ∷ cs) (digit, all) small =
    let grows = number_after-grows (n * 10 + (c - b'0')) cs in
    let fits_now : ltb (n * 10 + (c - b'0')) (2 ^ 64) ≡ true = ground arith in
    rw (digit, fits_now) (from_chars-accepts (n * 10 + (c - b'0')) cs all small)

fits_lem :
    (k : TypeKind) (negative : Bool) (n : ℕ)
    → (fits (range_of_kind k) negative n ≡ true) ↔ IsRepresentable (width k) negative n
unfolding fits range_of_kind
fits_lem k negative n = ground arith

representable-small :
    (k : TypeKind) (negative : Bool) (n : ℕ) → IsRepresentable (width k) negative n → n < 2 ^ 64
representable-small k negative n h = ground arith

-- A literal's text is accepted for a type just when it is a number that the type has.
magnitude_fits-IsRepresentable :
    (t : ValueType) (negative : Bool) (digits : Bytes)
    → (magnitude_fits t negative (decode_integer_magnitude digits) ≡ true)
      ↔ (IsNumber digits × IsRepresentable (width t.kind) negative (number_after 0 digits))
unfolding decode_array_length
magnitude_fits-IsRepresentable t negative [] = (λ e. cc e, λ h. absurd (h.0.some_digit refl))
magnitude_fits-IsRepresentable t negative (c ∷ cs) = (
  (λ e. elim (Option-cases (from_chars 0 (c ∷ cs))) [
    | inl missing ↦ cc (rw missing at e)
    | inr (k, found) ↦
        let (all, value) = from_chars-reads 0 (c ∷ cs) k (omega arith) found in
        let fitting = (fits_lem t.kind negative k).0 (rw found at e) in
        (
          record { some_digit = λ empty. cc empty; all_digits = all },
          subst (IsRepresentable (width t.kind) negative) (sym value) fitting,
        )
  ]),
  (λ (number, representable).
      let small = representable-small t.kind negative (number_after 0 (c ∷ cs)) representable in
      rw (from_chars-accepts 0 (c ∷ cs) number.all_digits small)
        ((fits_lem t.kind negative (number_after 0 (c ∷ cs))).1 representable)),
)

literal_target-ne-error :
    (context : Option ValueType) → literal_target context ≢ simple TypeKind.error
unfolding literal_target is_integer is_signed_integer is_unsigned_integer kind_value
literal_target-ne-error none e = cc e
literal_target-ne-error (some t) e = ground arith

-- For any text, sign, context and model, check_integer_literal_value gives the target type and
-- leaves the model alone if and only if the text is a decimal number that the target type has,
-- with the sign in front of it: below two to the type's bits without a sign bit, and within
-- two's complement with one. The target is the context, if that is an integer type, and i32 if
-- not.
pub check_integer_literal_value-IsRepresentable :
    (digits : Bytes) (negative : Bool) (span : SourceSpan) (context : Context) (m : SemanticModel)
    → (check_integer_literal_value digits negative span context m ≡ (literal_target context.0, m))
      ↔ (IsNumber digits
          × IsRepresentable
              (width (literal_target context.0).kind)
              negative
              (number_after 0 digits))
unfolding check_integer_literal_value
check_integer_literal_value-IsRepresentable digits negative span (expected, annotation) m =
    let target = literal_target expected in
    let (reads, accepts) = magnitude_fits-IsRepresentable target negative digits in
    (
      (λ e. elim (Bool-cases (magnitude_fits target negative (decode_integer_magnitude digits))) [
        | inl good ↦ reads good
        | inr bad ↦ absurd (
            literal_target-ne-error expected
              (sym (ap (λ r. r.0) (rw (bad, check_integer_literal_value) at e))))
      ]),
      (λ h. rw (accepts h) refl),
    )
