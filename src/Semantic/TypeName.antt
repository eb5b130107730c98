-- ===== src/Semantic/TypeName.antt =====
-- `typeName` of compiler/src/semantic/SemanticTypeName.cpp: how a type is written in messages.
pub mod Reading
pub mod RoundTrip
use kai_cc.Base.{
  ℕ, zero, suc, ◌+◌, ◌<◌, ◌/◌, ◌%◌, ltb, Option, none, some, [], ◌∷◌, ◌++◌, Bytes, codes, ◌≡◌, refl,
  arith, if◌then◌else◌,
}
use kai_cc.Semantic.Model.{SemanticModel}
use kai_cc.Semantic.Shapes.{Shape, IsPlain, Denotes}
use kai_cc.Semantic.Types.{ValueType, TypeKind, kind_value, simple}
use kai_cc.Semantic.Updates.{array_element_type, array_length, slice_element_type}

unfoldable pub kind_name : TypeKind → Bytes
kind_name TypeKind.unresolved = codes "unresolved"
kind_name TypeKind.error = codes "error"
kind_name TypeKind.unit = codes "unit"
kind_name TypeKind.i8 = codes "i8"
kind_name TypeKind.i16 = codes "i16"
kind_name TypeKind.i32 = codes "i32"
kind_name TypeKind.i64 = codes "i64"
kind_name TypeKind.u8 = codes "u8"
kind_name TypeKind.u16 = codes "u16"
kind_name TypeKind.u32 = codes "u32"
kind_name TypeKind.u64 = codes "u64"
kind_name TypeKind.f32 = codes "f32"
kind_name TypeKind.f64 = codes "f64"
kind_name TypeKind.bool = codes "bool"
kind_name TypeKind.char = codes "char"
kind_name TypeKind.str = codes "str"
kind_name _ = []

-- `std::to_string`: the last digit behind the others. A number has fewer digits than its value.
unfoldable pub decimal : ℕ → ℕ → Bytes
decimal zero n = []
decimal (suc fuel) n =
    let before = decimal fuel (n / 10) in
    let digit = (b'0' + n % 10) ∷ [] in if ltb n 10 then digit else before ++ digit

unfoldable pub to_string : ℕ → Bytes
to_string n = decimal (suc n) n

abbrev pub array_name : ℕ → Bytes → Bytes
array_name n element = codes "[" ++ (element ++ (codes "; " ++ (to_string n ++ codes "]")))

abbrev pub slice_name : Bytes → Bytes
slice_name element = codes "[" ++ (element ++ codes "]")

abbrev pub around : (Bytes → Bytes) → Option Bytes → Option Bytes
around f none = none
around f (some name) = some (f name)

-- An array or a slice around its element's name; fuel for each level, and none means that it was
-- too little.
unfoldable pub type_name : ℕ → SemanticModel → ValueType → Option Bytes
type_name zero m t = none
type_name (suc fuel) m t = elim t.kind [
  | TypeKind.array ↦
      around (array_name (array_length m t)) (type_name fuel m (array_element_type m t))
  | TypeKind.slice ↦ around slice_name (type_name fuel m (slice_element_type m t))
  | k ↦ some (kind_name k)
]

-- The name of a structure, and its levels.
unfoldable pub shape_name : Shape → Bytes
shape_name (Shape.plain k) = kind_name k
shape_name (Shape.array s n) = array_name n (shape_name s)
shape_name (Shape.slice s) = slice_name (shape_name s)

abbrev pub levels : Shape → ℕ
levels (Shape.plain k) = 1
levels (Shape.array s n) = suc (levels s)
levels (Shape.slice s) = suc (levels s)

plain-named :
    (k : TypeKind) (fuel : ℕ) (m : SemanticModel)
    → IsPlain k
    → type_name (suc fuel) m (simple k) ≡ some (kind_name k)
unfolding type_name kind_value
plain-named k fuel m (lo, hi) = ground arith

-- What is written of a type is the name of the structure that it denotes.
pub type_name-Denotes :
    (m : SemanticModel) (t : ValueType) (s : Shape) (fuel : ℕ)
    → Denotes m.array_types m.slice_types t s
    → levels s < suc fuel
    → type_name fuel m t ≡ some (shape_name s)
unfolding type_name shape_name
type_name-Denotes m t s zero (Denotes.plain k p e) h = absurd (omega arith)
type_name-Denotes m t s zero (Denotes.array info f at n d) h = absurd (omega arith)
type_name-Denotes m t s zero (Denotes.slice info f at d) h = absurd (omega arith)
type_name-Denotes m t s (suc fuel) (Denotes.plain k p e) h = rw e (plain-named k fuel m p)
type_name-Denotes m t (Shape.array s n) (suc fuel) (Denotes.array info f place e d) h =
    let rest = type_name-Denotes m info.element_type s fuel d (omega arith) in
    let element : array_element_type m t ≡ info.element_type =
      rw (place, array_element_type) refl in
    let size : array_length m t ≡ n = rw (place, array_length) e in
    rw (f, type_name) (cc (rest, element, size))
type_name-Denotes m t (Shape.slice s) (suc fuel) (Denotes.slice info f place d) h =
    let rest = type_name-Denotes m info.element_type s fuel d (omega arith) in
    let element : slice_element_type m t ≡ info.element_type =
      rw (place, slice_element_type) refl in
    rw (f, type_name) (cc (rest, element))
