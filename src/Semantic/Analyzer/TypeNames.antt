-- ===== src/Semantic/Analyzer/TypeNames.antt =====
-- `resolveTypeSyntax` of compiler/src/semantic/SemanticAnalyzer.cpp and its parts.
use kai_cc.Ast.Expr.{expr_span}
use kai_cc.Ast.TypeSyntax.{TypeSyntax}
use kai_cc.Base.{
  ℕ, ◌+◌, ◌-◌, ◌*◌, ◌^◌, Option, none, some, List, [], ◌∷◌, Bytes, codes, ltb, if◌then◌else◌, ◌&&◌,
}
use kai_cc.Lexer.Chars.{is_digit}
use kai_cc.Lexer.Keywords.{equal}
use kai_cc.Semantic.Model.{
  SemanticErrorKind, SemanticModel, plain_error, add_error, intern_array, intern_slice,
}
use kai_cc.Semantic.Types.{ValueType, TypeKind, simple, is_error, is_unresolved}
use kai_cc.Source.Text.{text}

-- `std::from_chars` for an unsigned number: digits, up to the last that fits 64 bits. It stops in
-- front of a byte that is no digit, and a number that does not fit is an error.
unfoldable pub from_chars : ℕ → Bytes → Option ℕ
from_chars value [] = some value
from_chars value (c ∷ cs) =
    let next = value * 10 + (c - b'0') in
    let rest = from_chars next cs in if is_digit c && ltb next (2 ^ 64) then rest else none

-- The text has to be used up, and one digit at least has to be there.
unfoldable pub decode_array_length : Bytes → Option ℕ
decode_array_length [] = none
decode_array_length (c ∷ cs) = from_chars 0 (c ∷ cs)

abbrev pub primitive_names : List (Bytes × TypeKind)
primitive_names =
    (codes "i8", TypeKind.i8)
    ∷ (codes "i16", TypeKind.i16)
    ∷ (codes "i32", TypeKind.i32)
    ∷ (codes "i64", TypeKind.i64)
    ∷ (codes "u8", TypeKind.u8)
    ∷ (codes "u16", TypeKind.u16)
    ∷ (codes "u32", TypeKind.u32)
    ∷ (codes "u64", TypeKind.u64)
    ∷ (codes "f32", TypeKind.f32)
    ∷ (codes "f64", TypeKind.f64)
    ∷ (codes "bool", TypeKind.bool)
    ∷ (codes "char", TypeKind.char)
    ∷ (codes "str", TypeKind.str)
    ∷ []

-- The chain of comparisons, in its order.
unfoldable pub primitive_in : List (Bytes × TypeKind) → Bytes → Option ValueType
primitive_in [] name = none
primitive_in ((spelling, kind) ∷ table) name =
    if equal name spelling then some (simple kind) else primitive_in table name

abbrev pub lookup_primitive_type_name : Bytes → Option ValueType
lookup_primitive_type_name = primitive_in primitive_names

-- `resolveArrayTypeSyntax` behind its element, and `resolveSliceTypeSyntax`.
unfoldable pub array_of : Bytes → ValueType → SemanticModel → ValueType × SemanticModel
array_of length_text element m =
    if is_error element
    then (simple TypeKind.error, m)
    else if is_unresolved element
    then (simple TypeKind.unresolved, m)
    else elim (decode_array_length length_text) [
      | none ↦ (simple TypeKind.error, m)
      | some n ↦ intern_array element n m
    ]

unfoldable pub slice_of : ValueType → SemanticModel → ValueType × SemanticModel
slice_of element m =
    if is_error element
    then (simple TypeKind.error, m)
    else if is_unresolved element
    then (simple TypeKind.unresolved, m)
    else intern_slice element m

-- `resolveNamedTypeSyntax`.
unfoldable pub named_type : Bytes → SemanticModel → SemanticModel → ValueType × SemanticModel
named_type name refused m = elim (lookup_primitive_type_name name) [
  | some t ↦ (t, m)
  | none ↦ (simple TypeKind.error, refused)
]

-- References and generic types are deferred.
unfoldable pub resolve_type_syntax : Bytes → TypeSyntax → SemanticModel → ValueType × SemanticModel
resolve_type_syntax contents (TypeSyntax.named n _) m =
    named_type (text contents n.span)
      (add_error m (plain_error SemanticErrorKind.unknown_type n.span none)) m
resolve_type_syntax contents (TypeSyntax.unit _) m = (simple TypeKind.unit, m)
resolve_type_syntax contents (TypeSyntax.array e length_expr _) m =
    let (element, m') = resolve_type_syntax contents e m in
    array_of (text contents (expr_span length_expr)) element m'
resolve_type_syntax contents (TypeSyntax.slice e _) m =
    let (element, m') = resolve_type_syntax contents e m in slice_of element m'
resolve_type_syntax contents (TypeSyntax.reference _ _ _ _) m = (simple TypeKind.unresolved, m)
resolve_type_syntax contents (TypeSyntax.generic _ _ _) m = (simple TypeKind.unresolved, m)
