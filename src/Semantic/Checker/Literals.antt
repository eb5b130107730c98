-- ===== src/Semantic/Checker/Literals.antt =====
-- Literals, contexts and domains in compiler/src/semantic/TypeChecker.cpp.
use kai_cc.Ast.Expr.{Expr, Identifier, LiteralKind, UnaryOperator, BinaryOperator}
use kai_cc.Base.{
  ℕ, ◌-◌, ◌^◌, Bool, true, false, ◌&&◌, ◌||◌, Option, none, some, List, [], ◌∷◌, Bytes, leb,
  if◌then◌else◌,
}
use kai_cc.Semantic.Analyzer.TypeNames.{decode_array_length}
use kai_cc.Semantic.Model.{SemanticErrorKind, SemanticModel, add_error}
use kai_cc.Semantic.Types.{
  ValueType, TypeKind, simple, is_error, is_unresolved, is_integer, is_float, is_numeric, is_bool,
  is_char,
}
use kai_cc.Semantic.Updates.{set_expression_type}
use kai_cc.Source.Location.{SourceSpan}
use kai_cc.Source.Text.{text}

-- Neither unresolved nor erroneous.
abbrev pub is_concrete : ValueType → Bool
is_concrete t = elim (is_error t) [
  | true ↦ false
  | false ↦ elim (is_unresolved t) [ true ↦ false | false ↦ true ]
]

unfoldable pub usable_context : Option ValueType → Option ValueType
usable_context none = none
usable_context (some t) = if is_unresolved t || is_error t then none else some t

-- An integer or a float in parentheses: its kind and span, and the spans of the parentheses from
-- the outermost in.
unfoldable pub unwrap_adaptable_literal : Expr → Option (LiteralKind × SourceSpan × List SourceSpan)
unwrap_adaptable_literal (Expr.paren inner span) = elim (unwrap_adaptable_literal inner) [
  | some (kind, literal, chain) ↦ some (kind, literal, span ∷ chain)
  | none ↦ none
]
unwrap_adaptable_literal (Expr.literal LiteralKind.integer span) =
    some (LiteralKind.integer, span, [])
unwrap_adaptable_literal (Expr.literal LiteralKind.float span) = some (LiteralKind.float, span, [])
unwrap_adaptable_literal _ = none

-- The same call of `std::from_chars` as for an array's length.
abbrev pub decode_integer_magnitude : Bytes → Option ℕ
decode_integer_magnitude digits = decode_array_length digits

pub record IntegerRange : Type 0 where
  pub max_positive_magnitude : ℕ
  pub max_negative_magnitude : ℕ
  pub is_signed : Bool

abbrev pub range : ℕ → ℕ → Bool → IntegerRange
range positive negative signed = record {
  max_positive_magnitude = positive;
  max_negative_magnitude = negative;
  is_signed = signed;
}

unfoldable pub range_of_kind : TypeKind → Option IntegerRange
range_of_kind TypeKind.i8 = some (range 127 128 true)
range_of_kind TypeKind.i16 = some (range 32767 32768 true)
range_of_kind TypeKind.i32 = some (range 2147483647 2147483648 true)
range_of_kind TypeKind.i64 = some (range 9223372036854775807 9223372036854775808 true)
range_of_kind TypeKind.u8 = some (range 255 0 false)
range_of_kind TypeKind.u16 = some (range 65535 0 false)
range_of_kind TypeKind.u32 = some (range 4294967295 0 false)
range_of_kind TypeKind.u64 = some (range (2 ^ 64 - 1) 0 false)
range_of_kind _ = none

abbrev pub integer_range_for : ValueType → Option IntegerRange
integer_range_for t = range_of_kind t.kind

unfoldable pub fits : Option IntegerRange → Bool → ℕ → Bool
fits none negative magnitude = false
fits (some r) true magnitude = r.is_signed && leb magnitude r.max_negative_magnitude
fits (some r) false magnitude = leb magnitude r.max_positive_magnitude

abbrev pub integer_literal_fits : ValueType → Bool → ℕ → Bool
integer_literal_fits target negative magnitude = fits (integer_range_for target) negative magnitude

abbrev pub is_arithmetic : BinaryOperator → Bool
is_arithmetic BinaryOperator.add = true
is_arithmetic BinaryOperator.subtract = true
is_arithmetic BinaryOperator.multiply = true
is_arithmetic BinaryOperator.divide = true
is_arithmetic BinaryOperator.modulo = true
is_arithmetic _ = false

unfoldable pub can_accept_numeric_context : Expr → Bool
can_accept_numeric_context (Expr.literal LiteralKind.integer _) = true
can_accept_numeric_context (Expr.literal LiteralKind.float _) = true
can_accept_numeric_context (Expr.paren inner _) = can_accept_numeric_context inner
can_accept_numeric_context (Expr.unary UnaryOperator.negate _ operand _) =
    can_accept_numeric_context operand
can_accept_numeric_context (Expr.binary op _ left right _) =
    let l = can_accept_numeric_context left in
    let r = can_accept_numeric_context right in is_arithmetic op && l && r
can_accept_numeric_context _ = false

-- A context and the span of the annotation that it is from.
abbrev pub Context : Type 0
Context = Option ValueType × Option SourceSpan

abbrev pub no_context : Context
no_context = (none, none)

unfoldable pub arithmetic_operand_context : Context → Context
arithmetic_operand_context (expected, span) = elim (usable_context expected) [
  | some t ↦ if is_numeric t then (some t, span) else no_context
  | none ↦ no_context
]

abbrev pub is_equality_domain : ValueType → Bool
is_equality_domain t = is_numeric t || is_bool t || is_char t

unfoldable pub unwrap_identifier : Expr → Option Identifier
unwrap_identifier (Expr.paren inner _) = unwrap_identifier inner
unwrap_identifier (Expr.identifier n _) = some n
unwrap_identifier _ = none

unfoldable pub unwrap_paren_expr : Expr → Expr
unwrap_paren_expr (Expr.paren inner _) = unwrap_paren_expr inner
unwrap_paren_expr e = e

unfoldable pub unwrap_index_assignment_root : Expr → Option Identifier
unwrap_index_assignment_root (Expr.paren inner _) = unwrap_index_assignment_root inner
unwrap_index_assignment_root (Expr.identifier n _) = some n
unwrap_index_assignment_root (Expr.index object _ _) = unwrap_index_assignment_root object
unwrap_index_assignment_root _ = none

-- With no integer type around it a literal is an i32.
unfoldable pub literal_target : Option ValueType → ValueType
literal_target none = simple TypeKind.i32
literal_target (some t) = if is_integer t then t else simple TypeKind.i32

abbrev pub magnitude_fits : ValueType → Bool → Option ℕ → Bool
magnitude_fits target negative none = false
magnitude_fits target negative (some magnitude) = integer_literal_fits target negative magnitude

unfoldable pub check_integer_literal_value :
    Bytes → Bool → SourceSpan → Context → SemanticModel → ValueType × SemanticModel
check_integer_literal_value digits negative span (context, annotation) m =
    let target = literal_target context in
    if magnitude_fits target negative (decode_integer_magnitude digits) then (target, m) else (
      simple TypeKind.error,
      add_error m (record {
        kind = SemanticErrorKind.literal_out_of_range;
        primary_span = span;
        related_span = annotation;
        expected_type = some target;
        actual_type = none;
      }),
    )

abbrev pub float_literal_type : Option ValueType → ValueType
float_literal_type none = simple TypeKind.f64
float_literal_type (some t) = if is_float t then t else simple TypeKind.f64

-- The type of the node, set.
abbrev pub typed : SourceSpan → ValueType × SemanticModel → ValueType × SemanticModel
typed span (t, m) = (t, set_expression_type span t m)

unfoldable pub literal_type :
    Bytes → LiteralKind → SourceSpan → Context → SemanticModel → ValueType × SemanticModel
literal_type contents LiteralKind.integer span (expected, annotation) m =
    check_integer_literal_value (text contents span) false span
      (usable_context expected, annotation) m
literal_type contents LiteralKind.float span (expected, _) m =
    (float_literal_type (usable_context expected), m)
literal_type contents LiteralKind.bool span _ m = (simple TypeKind.bool, m)
literal_type contents LiteralKind.char span _ m = (simple TypeKind.char, m)
literal_type contents LiteralKind.string span _ m = (simple TypeKind.str, m)

unfoldable pub check_literal_expr :
    Bytes → LiteralKind → SourceSpan → Context → SemanticModel → ValueType × SemanticModel
check_literal_expr contents kind span context m =
    typed span (literal_type contents kind span context m)
