-- ===== src/Semantic/Checker/Arrays.antt =====
-- Array literals and indexing in compiler/src/semantic/TypeChecker.cpp.
use kai_cc.Ast.Expr.{Expr, Exprs, expr_span, LiteralKind, UnaryOperator}
use kai_cc.Base.{
  ℕ, suc, ◌==◌, Bool, true, false, not, ◌&&◌, ◌||◌, Option, none, some, List, [], ◌∷◌, Bytes, leb,
  length, if◌then◌else◌,
}
use kai_cc.Semantic.Checker.Literals.{usable_context, decode_integer_magnitude}
use kai_cc.Semantic.Checker.Operators.{Checked, actual_error, fails}
use kai_cc.Semantic.Model.{SemanticErrorKind, SemanticModel, plain_error, intern_array}
use kai_cc.Semantic.Types.{
  ValueType, TypeKind, simple, types_equal, is_error, is_unresolved, is_integer, is_array, is_slice,
}
use kai_cc.Semantic.Updates.{array_element_type, array_length, slice_element_type}
use kai_cc.Source.Location.{SourceSpan}
use kai_cc.Source.Text.{text}

unfoldable pub expected_element_type : Option ValueType → SemanticModel → Option ValueType
expected_element_type expected m = elim (usable_context expected) [
  | some t ↦ if is_array t then some (array_element_type m t) else none
  | none ↦ none
]

unfoldable pub check_empty_array : Option ValueType → SourceSpan → SemanticModel → Checked
check_empty_array (some element) span m = intern_array element 0 m
check_empty_array none span m =
    fails (plain_error SemanticErrorKind.ambiguous_empty_array_literal span none) m

unfoldable pub any_type : (ValueType → Bool) → List ValueType → Bool
any_type test [] = false
any_type test (t ∷ ts) = test t || any_type test ts

-- The first element of another type than the given one: its type and its span.
unfoldable pub first_mismatch : ValueType → List ValueType → Exprs → Option (ValueType × SourceSpan)
first_mismatch t (u ∷ us) (Exprs.cons e es) =
    let rest = first_mismatch t us es in if types_equal u t then rest else some (u, expr_span e)
first_mismatch t _ _ = none

unfoldable pub array_elements_result :
    ValueType → List ValueType → Expr → Exprs → SemanticModel → Checked
array_elements_result t ts e es m = elim (first_mismatch t ts es) [
  | none ↦ intern_array t (suc (length ts)) m
  | some (u, span) ↦
      fails
        (record {
          kind = SemanticErrorKind.incompatible_array_element_type;
          primary_span = span;
          related_span = some (expr_span e);
          expected_type = some t;
          actual_type = some u;
        })
        m
]

-- The elements' types, of which there is one at least.
unfoldable pub array_literal_result : List ValueType → Exprs → SemanticModel → Checked
array_literal_result (t ∷ ts) (Exprs.cons e es) m =
    if any_type is_error (t ∷ ts)
    then (simple TypeKind.error, m)
    else (if any_type is_unresolved (t ∷ ts)
        then (simple TypeKind.unresolved, m)
        else array_elements_result t ts e es m)
array_literal_result _ _ m = (simple TypeKind.error, m)

pub record ConstantIndexValue : Type 0 where
  pub is_negative : Bool
  pub magnitude : ℕ

-- A literal with at most one minus and any parentheses.
unfoldable pub try_decode_constant_index : Bytes → Expr → Option ConstantIndexValue
try_decode_constant_index contents (Expr.paren inner _) = try_decode_constant_index contents inner
try_decode_constant_index contents (Expr.unary UnaryOperator.negate _ operand _) =
    elim (try_decode_constant_index contents operand) [
      | some c ↦
          if c.is_negative
          then none
          else some (record { is_negative = true; magnitude = c.magnitude })
      | none ↦ none
    ]
try_decode_constant_index contents (Expr.literal LiteralKind.integer span) =
    elim (decode_integer_magnitude (text contents span)) [
      | some n ↦ some (record { is_negative = false; magnitude = n })
      | none ↦ none
    ]
try_decode_constant_index contents _ = none

unfoldable pub provably_negative : Option ConstantIndexValue → Bool
provably_negative none = false
provably_negative (some c) = c.is_negative && not (c.magnitude == 0)

unfoldable pub out_of_bounds : Option ConstantIndexValue → ℕ → Bool
out_of_bounds none length = false
out_of_bounds (some c) length =
    (c.is_negative && not (c.magnitude == 0)) || (not c.is_negative && leb length c.magnitude)

unfoldable pub index_result :
    Option ConstantIndexValue
    → SourceSpan
    → SourceSpan
    → ValueType
    → ValueType
    → SemanticModel
    → Checked
index_result constant object_span index_span object index m =
    if is_error object || is_error index
    then (simple TypeKind.error, m)
    else (if is_unresolved object || is_unresolved index
        then (simple TypeKind.unresolved, m)
        else (if not (is_array object) && not (is_slice object)
            then fails (actual_error SemanticErrorKind.invalid_index_target object_span object) m
            else (if not (is_integer index)
                then fails (actual_error SemanticErrorKind.invalid_index_type index_span index) m
                else (if is_array object
                    then (if out_of_bounds constant (array_length m object)
                        then fails
                            (plain_error SemanticErrorKind.array_index_out_of_bounds index_span
                              none)
                            m
                        else (array_element_type m object, m))
                    else (if provably_negative constant
                        then fails
                            (plain_error SemanticErrorKind.slice_index_out_of_bounds index_span
                              none)
                            m
                        else (slice_element_type m object, m))))))

abbrev pub anchor_place : Option (ℕ × ValueType) → Option ℕ
anchor_place none = none
anchor_place (some (i, _)) = some i

abbrev pub anchor_type : Option (ℕ × ValueType) → Option ValueType
anchor_type none = none
anchor_type (some (_, t)) = some t

-- With no element type expected, the first element that has a type of its own gives one. The
-- anchor is that element's place and type; the elements are checked but for the place to skip.
unfoldable pub check_array_literal :
    Exprs
    → SourceSpan
    → Option ValueType
    → (SemanticModel → Option (ℕ × ValueType) × SemanticModel)
    → (Option ℕ → Option ValueType → SemanticModel → List ValueType × SemanticModel)
    → SemanticModel
    → Checked
check_array_literal Exprs.nil span expected anchor elements m = check_empty_array expected span m
check_array_literal (Exprs.cons e es) span (some t) anchor elements m =
    let (ts, m1) = elements none (some t) m in array_literal_result ts (Exprs.cons e es) m1
check_array_literal (Exprs.cons e es) span none anchor elements m =
    let (found, m1) = anchor m in
    let (ts, m2) = elements (anchor_place found) (anchor_type found) m1 in
    array_literal_result ts (Exprs.cons e es) m2
