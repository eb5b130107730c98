-- ===== src/Semantic/TypeName/RoundTrip.antt =====
-- Reading the names that `typeName` of compiler/src/semantic/SemanticTypeName.cpp writes.
use kai_cc.Base.{
  ℕ, zero, suc, ◌+◌, ◌*◌, ◌<◌, ◌/◌, ◌%◌, Bool, true, false, ◌&&◌, ltb, ◌==◌, none, some, [], ◌∷◌,
  ◌++◌, append_assoc, append-nil, Bytes, codes, ◌≡◌, refl, sym, ap, ◌∙◌, arith, Bool-cases, inl,
  inr,
}
use kai_cc.Lexer.Chars.{is_digit, is_identifier_start, is_identifier_continue}
use kai_cc.Lexer.Keywords.{equal}
use kai_cc.Semantic.Analyzer.TypeNames.{primitive_in}
use kai_cc.Semantic.Model.{SemanticModel}
use kai_cc.Semantic.Shapes.{Shape, IsPlain, Denotes}
use kai_cc.Semantic.TypeName.{
  kind_name, decimal, to_string, type_name, shape_name, levels, type_name-Denotes,
}
use kai_cc.Semantic.Types.{ValueType, TypeKind, kind_value, simple}
use kai_cc.Semantic.TypeName.Reading.{
  read_word, plain_names, plain_shape, read_plain, read_number, expect, array_shape, read_length,
  read_rest, read_shape,
}

-- No word goes on here.
abbrev Stops : Bytes → Type 0
Stops [] = Unit
Stops (c ∷ cs) = is_identifier_continue c ≡ false

unfoldable is_word : Bytes → Bool
is_word [] = true
is_word (c ∷ cs) = is_identifier_continue c && is_word cs

read_word-append :
    (w rest : Bytes) → is_word w ≡ true → Stops rest → read_word (w ++ rest) ≡ (w, rest)
unfolding read_word is_word
read_word-append [] [] h s = refl
read_word-append [] (c ∷ cs) h s = rw s refl
read_word-append (c ∷ w) rest h s =
    let ih = read_word-append w rest (ground arith) s in
    let head : is_identifier_continue c ≡ true = ground arith in rw (head, ih) refl

primitive_in-nil : primitive_in plain_names [] ≡ none
unfolding primitive_in equal
primitive_in-nil = refl

-- A word of the table is read as its kind; a word is no bracket, and no name is empty.
read_shape-word :
    (fuel : ℕ) (name rest : Bytes) (k : TypeKind)
    → is_word name ≡ true
    → primitive_in plain_names name ≡ some (simple k)
    → Stops rest
    → read_shape (suc fuel) (name ++ rest) ≡ some (Shape.plain k, rest)
unfolding read_shape read_plain is_word is_identifier_continue is_identifier_start is_digit
read_shape-word fuel [] rest k word known stops = cc (known, primitive_in-nil)
read_shape-word fuel (c ∷ cs) rest k word known stops =
    let whole = read_word-append (c ∷ cs) rest word stops in
    let head : (c == b'[') ≡ false = ground arith in
    rw (head, whole) (ap (λ t. plain_shape t rest) known)

abbrev IsKnown : TypeKind → Type 0
IsKnown k =
    (is_word (kind_name k) ≡ true) × (primitive_in plain_names (kind_name k) ≡ some (simple k))

kind_name-IsKnown : (k : TypeKind) → IsPlain k → IsKnown k
unfolding kind_name is_word primitive_in is_identifier_continue is_identifier_start is_digit equal
    kind_value
kind_name-IsKnown TypeKind.unit p = (refl, refl)
kind_name-IsKnown TypeKind.i8 p = (refl, refl)
kind_name-IsKnown TypeKind.i16 p = (refl, refl)
kind_name-IsKnown TypeKind.i32 p = (refl, refl)
kind_name-IsKnown TypeKind.i64 p = (refl, refl)
kind_name-IsKnown TypeKind.u8 p = (refl, refl)
kind_name-IsKnown TypeKind.u16 p = (refl, refl)
kind_name-IsKnown TypeKind.u32 p = (refl, refl)
kind_name-IsKnown TypeKind.u64 p = (refl, refl)
kind_name-IsKnown TypeKind.f32 p = (refl, refl)
kind_name-IsKnown TypeKind.f64 p = (refl, refl)
kind_name-IsKnown TypeKind.bool p = (refl, refl)
kind_name-IsKnown TypeKind.char p = (refl, refl)
kind_name-IsKnown TypeKind.str p = (refl, refl)
kind_name-IsKnown TypeKind.unresolved p = absurd (omega (arith, p))
kind_name-IsKnown TypeKind.error p = absurd (omega (arith, p))
kind_name-IsKnown TypeKind.array p = absurd (omega (arith, p))
kind_name-IsKnown TypeKind.slice p = absurd (omega (arith, p))

-- The digits of a number give it back, in front of whatever is no digit.
digit-is_digit : (n : ℕ) → is_digit (b'0' + n % 10) ≡ true
unfolding is_digit
digit-is_digit n = ground arith

read_number-digit :
    (n v : ℕ) (rest : Bytes)
    → read_number v ((b'0' + n % 10) ∷ rest) ≡ read_number (v * 10 + n % 10) rest
unfolding read_number
read_number-digit n v rest = rw (digit-is_digit n) (ap (λ m. read_number m rest) (omega arith))

read_number-decimal :
    (fuel n : ℕ) (rest : Bytes)
    → n < fuel
    → read_number 0 (decimal fuel n ++ rest) ≡ read_number n rest
unfolding decimal
read_number-decimal zero n rest h = absurd (omega arith)
read_number-decimal (suc fuel) n rest h = elim (Bool-cases (ltb n 10)) [
  | inl b ↦ rw b (read_number-digit n 0 rest ∙ ap (λ m. read_number m rest) (ground arith))
  | inr b ↦
      let digits = read_number-decimal fuel (n / 10) ((b'0' + n % 10) ∷ rest) (ground arith) in
      rw (b, append_assoc (decimal fuel (n / 10)) ((b'0' + n % 10) ∷ []) rest)
        (digits ∙ read_number-digit n (n / 10) rest ∙ ap (λ m. read_number m rest) (omega arith))
]

-- A number is written with one digit at least.
decimal-starts :
    (fuel n : ℕ)
    → n < fuel
    → (c : ℕ) × (cs : Bytes) × (decimal fuel n ≡ c ∷ cs) × (is_digit c ≡ true)
unfolding decimal
decimal-starts zero n h = absurd (omega arith)
decimal-starts (suc fuel) n h = elim (Bool-cases (ltb n 10)) [
  | inl b ↦ rw b (_, _, refl, digit-is_digit n)
  | inr b ↦
      let (c, cs, e, d) = decimal-starts fuel (n / 10) (ground arith) in rw (b, e) (c, _, refl, d)
]

read_length-digits :
    (s : Shape) (n c : ℕ) (cs rest : Bytes)
    → is_digit c ≡ true
    → read_number 0 (c ∷ cs) ≡ (n, b']' ∷ rest)
    → read_length s (some (c ∷ cs)) ≡ some (Shape.array s n, rest)
unfolding read_length expect
read_length-digits s n c cs rest d value =
    rw d (ap (λ r. array_shape s r.0 (expect b']' r.1)) value)

read_length-to_string :
    (s : Shape) (n : ℕ) (rest : Bytes)
    → read_length s (some (to_string n ++ (b']' ∷ rest))) ≡ some (Shape.array s n, rest)
unfolding to_string read_number is_digit
read_length-to_string s n rest =
    let (c, cs, e, d) = decimal-starts (suc n) n (omega arith) in
    let value = read_number-decimal (suc n) n (b']' ∷ rest) (omega arith) in
    rw e (read_length-digits s n c (cs ++ (b']' ∷ rest)) rest d (rw e at value))

-- The name of a structure is read back, in front of whatever does not go on as a word.
read_shape-shape_name :
    (m : SemanticModel) (t : ValueType) (s : Shape) (fuel : ℕ) (rest : Bytes)
    → Denotes m.array_types m.slice_types t s
    → levels s < suc fuel
    → Stops rest
    → read_shape fuel (shape_name s ++ rest) ≡ some (s, rest)
unfolding read_shape shape_name read_rest expect is_identifier_continue is_identifier_start is_digit
read_shape-shape_name m t s zero rest (Denotes.plain k p e) h stops = absurd (omega arith)
read_shape-shape_name m t s zero rest (Denotes.array info f at n d) h stops = absurd (omega arith)
read_shape-shape_name m t s zero rest (Denotes.slice info f at d) h stops = absurd (omega arith)
read_shape-shape_name m t s (suc fuel) rest (Denotes.plain k p e) h stops =
    let (word, known) = kind_name-IsKnown k p in
    read_shape-word fuel (kind_name k) rest k word known stops
read_shape-shape_name m t (Shape.array s n) (suc fuel) rest (Denotes.array info f place e d) h
      stops =
    let size = to_string n ++ (b']' ∷ rest) in
    let element =
      read_shape-shape_name m info.element_type s fuel (codes "; " ++ size) d (omega arith) refl in
    rw
      (
        append_assoc (shape_name s) (codes "; " ++ (to_string n ++ codes "]")) rest,
        append_assoc (to_string n) (codes "]") rest,
      )
      (ap read_rest element ∙ read_length-to_string s n rest)
read_shape-shape_name m t (Shape.slice s) (suc fuel) rest (Denotes.slice info f place d) h stops =
    let element =
      read_shape-shape_name m info.element_type s fuel (b']' ∷ rest) d (omega arith) refl in
    rw (append_assoc (shape_name s) (codes "]") rest) (ap read_rest element)

-- For a type that denotes a structure in the tables of a model, and fuel for the structure's
-- levels at least, type_name writes a name, and a reader of such names gives back just that
-- structure from it: it takes a word for the kind that the analyzer's table of primitive
-- names, or unit, has for it, brackets around an element for a slice, and with a semicolon, a
-- blank and decimal digits behind the element for an array of that length.
pub type_name-read_shape :
    (m : SemanticModel) (t : ValueType) (s : Shape) (fuel : ℕ)
    → Denotes m.array_types m.slice_types t s
    → levels s < suc fuel
    → (name : Bytes) × (type_name fuel m t ≡ some name) × (read_shape fuel name ≡ some (s, []))
type_name-read_shape m t s fuel d h = (
  shape_name s,
  type_name-Denotes m t s fuel d h,
  ap (read_shape fuel) (sym (append-nil (shape_name s)))
      ∙ read_shape-shape_name m t s fuel [] d h tt,
)
