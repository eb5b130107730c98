-- ===== src/Semantic/Checker/Operators.antt =====
-- Unary and binary operators in compiler/src/semantic/TypeChecker.cpp. The check of an operand is
-- an argument: it takes a context and a model.
use kai_cc.Ast.Expr.{LiteralKind, UnaryOperator, BinaryOperator}
use kai_cc.Base.{
  Bool, true, false, ◌&&◌, ◌||◌, Option, none, some, List, [], ◌∷◌, Bytes, if◌then◌else◌,
}
use kai_cc.Semantic.Checker.Literals.{
  Context, no_context, usable_context, arithmetic_operand_context, is_equality_domain,
  check_integer_literal_value, float_literal_type, typed,
}
use kai_cc.Semantic.Model.{SemanticErrorKind, SemanticModel, SemanticError, add_error, plain_error}
use kai_cc.Semantic.Types.{
  ValueType, TypeKind, simple, types_equal, is_error, is_unresolved, is_signed_integer, is_float,
  is_integer, is_numeric, is_bool,
}
use kai_cc.Semantic.Updates.{set_expression_type}
use kai_cc.Source.Location.{SourceSpan}
use kai_cc.Source.Text.{text}

abbrev pub Checked : Type 0
Checked = ValueType × SemanticModel

abbrev pub Check : Type 0
Check = Context → SemanticModel → Checked

-- An error with the type that was found.
abbrev pub actual_error : SemanticErrorKind → SourceSpan → ValueType → SemanticError
actual_error kind span t = record {
  kind = kind;
  primary_span = span;
  related_span = none;
  expected_type = none;
  actual_type = some t;
}

-- A type that is expected and another that was found.
abbrev pub mismatch : SourceSpan → Option SourceSpan → ValueType → ValueType → SemanticError
mismatch span annotation expected actual = record {
  kind = SemanticErrorKind.type_mismatch;
  primary_span = span;
  related_span = annotation;
  expected_type = some expected;
  actual_type = some actual;
}

abbrev pub fails : SemanticError → SemanticModel → Checked
fails e m = (simple TypeKind.error, add_error m e)

unfoldable pub set_types : List SourceSpan → ValueType → SemanticModel → SemanticModel
set_types [] t m = m
set_types (span ∷ spans) t m = set_types spans t (set_expression_type span t m)

-- A minus in front of a literal: the two are one number.
unfoldable pub negated_literal :
    Bytes → LiteralKind → SourceSpan → SourceSpan → Context → SemanticModel → Checked
negated_literal contents LiteralKind.integer literal span (expected, annotation) m =
    check_integer_literal_value (text contents literal) true span
      (usable_context expected, annotation) m
negated_literal contents _ literal span (expected, _) m =
    (float_literal_type (usable_context expected), m)

unfoldable pub check_negated_literal :
    Bytes
    → LiteralKind × SourceSpan × List SourceSpan
    → SourceSpan
    → Context
    → SemanticModel
    → Checked
check_negated_literal contents (kind, literal, chain) span context m =
    let (t, m') = negated_literal contents kind literal span context m in
    (t, set_expression_type span t (set_types chain t (set_expression_type literal t m')))

unfoldable pub negation_context : Context → Context
negation_context (expected, annotation) = elim (usable_context expected) [
  | some t ↦ if is_signed_integer t || is_float t then (some t, annotation) else no_context
  | none ↦ no_context
]

-- An operand in the domain gives the result; an error and a deferred type stay what they are.
unfoldable pub unary_result : Bool → ValueType → SourceSpan → ValueType → SemanticModel → Checked
unary_result accepted result operator operand m =
    if is_error operand
    then (simple TypeKind.error, m)
    else (if is_unresolved operand
        then (simple TypeKind.unresolved, m)
        else (if accepted
            then (result, m)
            else fails (actual_error SemanticErrorKind.invalid_unary_operand operator operand) m))

unfoldable pub check_negation : Check → SourceSpan → SourceSpan → Context → SemanticModel → Checked
check_negation operand operator span context m =
    let (t, m') = operand (negation_context context) m in
    typed span (unary_result (is_signed_integer t || is_float t) t operator t m')

unfoldable pub check_not : Check → SourceSpan → SourceSpan → SemanticModel → Checked
check_not operand operator span m =
    let (t, m') = operand no_context m in
    typed span (unary_result (is_bool t) (simple TypeKind.bool) operator t m')

-- `&` and `&mut`.
unfoldable pub check_reference : Check → SourceSpan → SemanticModel → Checked
check_reference operand span m =
    let (t, m') = operand no_context m in typed span (simple TypeKind.unresolved, m')

unfoldable pub check_unary_expr :
    Bytes
    → UnaryOperator
    → SourceSpan
    → Option (LiteralKind × SourceSpan × List SourceSpan)
    → Check
    → SourceSpan
    → Context
    → SemanticModel
    → Checked
check_unary_expr contents UnaryOperator.negate operator (some literal) operand span context m =
    check_negated_literal contents literal span context m
check_unary_expr contents UnaryOperator.negate operator none operand span context m =
    check_negation operand operator span context m
check_unary_expr contents UnaryOperator.not_op operator literal operand span context m =
    check_not operand operator span m
check_unary_expr contents _ operator literal operand span context m = check_reference operand span m

-- The type of one operand as the other's context, if it is a number's.
abbrev pub anchor : ValueType → Context
anchor t = (if is_numeric t then some t else none, none)

-- An operand that can take any numeric type is checked behind one that cannot.
unfoldable pub check_matched_operands :
    Bool → Check → Bool → Check → Context → SemanticModel → (ValueType × ValueType) × SemanticModel
check_matched_operands true left false right context m =
    let (r, m1) = right no_context m in let (l, m2) = left (anchor r) m1 in ((l, r), m2)
check_matched_operands false left true right context m =
    let (l, m1) = left no_context m in let (r, m2) = right (anchor l) m1 in ((l, r), m2)
check_matched_operands true left true right context m =
    let (l, m1) = left context m in let (r, m2) = right context m1 in ((l, r), m2)
check_matched_operands false left false right context m =
    let (l, m1) = left no_context m in let (r, m2) = right no_context m1 in ((l, r), m2)

unfoldable pub resolve_matched_operator_result :
    SourceSpan → (ValueType → Bool) → Bool → (ValueType × ValueType) × SemanticModel → Checked
resolve_matched_operator_result operator accepts result_is_operand_type ((l, r), m) =
    if is_error l || is_error r
    then (simple TypeKind.error, m)
    else (if is_unresolved l || is_unresolved r
        then (simple TypeKind.unresolved, m)
        else (if types_equal l r && accepts l
            then (if result_is_operand_type then l else simple TypeKind.bool, m)
            else fails (plain_error SemanticErrorKind.invalid_binary_operands operator none) m))

unfoldable pub logical_result : SourceSpan → ValueType → ValueType → SemanticModel → Checked
logical_result operator l r m =
    if is_error l || is_error r
    then (simple TypeKind.error, m)
    else (if is_unresolved l || is_unresolved r
        then (simple TypeKind.unresolved, m)
        else (if is_bool l && is_bool r
            then (simple TypeKind.bool, m)
            else fails (plain_error SemanticErrorKind.invalid_binary_operands operator none) m))

unfoldable pub check_logical : SourceSpan → Check → Check → SemanticModel → Checked
check_logical operator left right m =
    let (l, m1) = left no_context m in
    let (r, m2) = right no_context m1 in logical_result operator l r m2

-- `..` is checked by `for`; elsewhere its type is deferred.
unfoldable pub check_range : Check → Check → SemanticModel → Checked
check_range left right m =
    let (l, m1) = left no_context m in
    let (r, m2) = right no_context m1 in (simple TypeKind.unresolved, m2)

-- What the operators take and give.
pub data Family : Type 0 where
  range logical : Family
  arithmetic comparison : (ValueType → Bool) → Family

abbrev pub family : BinaryOperator → Family
family BinaryOperator.range = Family.range
family BinaryOperator.add = Family.arithmetic is_numeric
family BinaryOperator.subtract = Family.arithmetic is_numeric
family BinaryOperator.multiply = Family.arithmetic is_numeric
family BinaryOperator.divide = Family.arithmetic is_numeric
family BinaryOperator.modulo = Family.arithmetic is_integer
family BinaryOperator.lt_op = Family.comparison is_numeric
family BinaryOperator.less_equal = Family.comparison is_numeric
family BinaryOperator.gt_op = Family.comparison is_numeric
family BinaryOperator.greater_equal = Family.comparison is_numeric
family BinaryOperator.eq_op = Family.comparison is_equality_domain
family BinaryOperator.not_equal = Family.comparison is_equality_domain
family BinaryOperator.and_op = Family.logical
family BinaryOperator.or_op = Family.logical

unfoldable pub binary_result :
    Family → SourceSpan → Bool → Check → Bool → Check → Context → SemanticModel → Checked
binary_result Family.range operator lf left rf right context m = check_range left right m
binary_result Family.logical operator lf left rf right context m =
    check_logical operator left right m
binary_result (Family.arithmetic accepts) operator lf left rf right context m =
    resolve_matched_operator_result operator accepts true
      (check_matched_operands lf left rf right (arithmetic_operand_context context) m)
binary_result (Family.comparison accepts) operator lf left rf right context m =
    resolve_matched_operator_result operator accepts false
      (check_matched_operands lf left rf right no_context m)

unfoldable pub check_binary_expr :
    BinaryOperator
    → SourceSpan
    → Bool
    → Check
    → Bool
    → Check
    → SourceSpan
    → Context
    → SemanticModel
    → Checked
check_binary_expr op operator left_flexible left right_flexible right span context m =
    typed span
      (binary_result (family op) operator left_flexible left right_flexible right context m)
