-- ===== src/Semantic/Checker/Typed/Operators.antt =====
-- The operators of compiler/src/semantic/TypeChecker.cpp, and the types in a model.
use kai_cc.Ast.Expr.{LiteralKind, UnaryOperator, BinaryOperator}
use kai_cc.Base.{Bool, true, false, ◌&&◌, ◌||◌, Option, none, some, List, [], ◌∷◌, Bytes, arith}
use kai_cc.Semantic.Checker.Literals.{
  Context, no_context, usable_context, arithmetic_operand_context,
}
use kai_cc.Semantic.Checker.Operators.{
  Check, set_types, negated_literal, check_negated_literal, negation_context, unary_result,
  check_negation, check_not, check_reference, check_unary_expr, anchor, check_matched_operands,
  resolve_matched_operator_result, logical_result, check_logical, check_range, Family, family,
  binary_result, check_binary_expr,
}
use kai_cc.Semantic.Checker.Typed.Rules.{
  keep, keep_error, keep_unresolved, plain-Known, fails-Keeps, if-Keeps, if-Known, after-Keeps,
  set-Typed, typed-Keeps, usable_context-Known, float_literal_type-Known, integer-Keeps,
}
use kai_cc.Semantic.Checker.Typed.{
  Tables, tables, Known, KnownOption, Known-Wide, KnownOption-Wide, Typed, Wide, Wide-trans, Keeps,
  Safe,
}
use kai_cc.Semantic.Model.{SemanticModel}
use kai_cc.Semantic.Types.{
  ValueType, TypeKind, kind_value, simple, types_equal, is_error, is_unresolved, is_bool,
}
use kai_cc.Semantic.Updates.{set_expression_type}
use kai_cc.Source.Location.{SourceSpan}

set_types-Typed :
    (spans : List SourceSpan) (v : ValueType) (m : SemanticModel)
    → Typed m
    → Known (tables m) v
    → Keeps (tables m) (v, set_types spans v m)
unfolding set_types
set_types-Typed [] v m h k = keep v m h k
set_types-Typed (span ∷ spans) v m h k =
    set_types-Typed spans v (set_expression_type span v m) (set-Typed span v m h k) k

negated_literal-Keeps :
    (contents : Bytes) (kind : LiteralKind) (literal span : SourceSpan) (c : Context)
    (m : SemanticModel)
    → Typed m
    → KnownOption (tables m) c.0
    → Keeps (tables m) (negated_literal contents kind literal span c m)
unfolding negated_literal
negated_literal-Keeps contents LiteralKind.integer literal span (c, a) m h k =
    integer-Keeps _ true span _ m h (usable_context-Known (tables m) c k)
negated_literal-Keeps contents LiteralKind.float literal span (c, a) m h k =
    keep _ m h (float_literal_type-Known (tables m) _ (usable_context-Known (tables m) c k))
negated_literal-Keeps contents LiteralKind.bool literal span (c, a) m h k =
    keep _ m h (float_literal_type-Known (tables m) _ (usable_context-Known (tables m) c k))
negated_literal-Keeps contents LiteralKind.char literal span (c, a) m h k =
    keep _ m h (float_literal_type-Known (tables m) _ (usable_context-Known (tables m) c k))
negated_literal-Keeps contents LiteralKind.string literal span (c, a) m h k =
    keep _ m h (float_literal_type-Known (tables m) _ (usable_context-Known (tables m) c k))

check_negated_literal-Keeps :
    (contents : Bytes) (l : LiteralKind × SourceSpan × List SourceSpan) (span : SourceSpan)
    (c : Context) (m : SemanticModel)
    → Typed m
    → KnownOption (tables m) c.0
    → Keeps (tables m) (check_negated_literal contents l span c m)
unfolding check_negated_literal
check_negated_literal-Keeps contents (kind, literal, chain) span c m h k =
    let r = negated_literal-Keeps contents kind literal span c m h k in
    let (v, m1) = negated_literal contents kind literal span c m in
    let one = set-Typed literal v m1 r.is_typed r.known in
    let all = set_types-Typed chain v (set_expression_type literal v m1) one r.known in
    typed-Keeps span _ (after-Keeps r.wide all)

negation_context-Known :
    (t : Tables) (c : Context) → KnownOption t c.0 → KnownOption t (negation_context c).0
unfolding negation_context usable_context
negation_context-Known t (none, a) k = tt
negation_context-Known t (some v, a) k = ground arith

arithmetic_context-Known :
    (t : Tables) (c : Context) → KnownOption t c.0 → KnownOption t (arithmetic_operand_context c).0
unfolding arithmetic_operand_context usable_context
arithmetic_context-Known t (none, a) k = tt
arithmetic_context-Known t (some v, a) k = ground arith

anchor-Known : (t : Tables) (v : ValueType) → Known t v → KnownOption t (anchor v).0
anchor-Known t v k = ground arith

unary_result-Keeps :
    (accepted : Bool) (result : ValueType) (operator : SourceSpan) (operand : ValueType)
    (m : SemanticModel)
    → Typed m
    → Known (tables m) result
    → Keeps (tables m) (unary_result accepted result operator operand m)
unfolding unary_result
unary_result-Keeps accepted result operator operand m h k =
    if-Keeps (is_error operand) (λ _. keep_error m h)
      (λ _.
        if-Keeps (is_unresolved operand) (λ _. keep_unresolved m h)
          (λ _. if-Keeps accepted (λ _. keep result m h k) (λ _. fails-Keeps _ m h)))

bool-Known : (t : Tables) → Known t (simple TypeKind.bool)
unfolding kind_value
bool-Known t = plain-Known t TypeKind.bool (omega arith)

pub check_unary_expr-Keeps :
    (contents : Bytes) (op : UnaryOperator) (operator : SourceSpan)
    (l : Option (LiteralKind × SourceSpan × List SourceSpan)) (operand : Check) (span : SourceSpan)
    (c : Context) (m : SemanticModel)
    → Safe operand
    → Typed m
    → KnownOption (tables m) c.0
    → Keeps (tables m) (check_unary_expr contents op operator l operand span c m)
unfolding check_unary_expr check_negation check_not check_reference
check_unary_expr-Keeps contents UnaryOperator.negate operator (some l) operand span c m safe h k =
    check_negated_literal-Keeps contents l span c m h k
check_unary_expr-Keeps contents UnaryOperator.negate operator none operand span c m safe h k =
    let r = safe (negation_context c) m h (negation_context-Known (tables m) c k) in
    typed-Keeps span _ (after-Keeps r.wide (unary_result-Keeps _ _ operator _ _ r.is_typed r.known))
check_unary_expr-Keeps contents UnaryOperator.not_op operator l operand span c m safe h k =
    let r = safe no_context m h tt in
    typed-Keeps span _
      (after-Keeps r.wide (unary_result-Keeps _ _ operator _ _ r.is_typed (bool-Known _)))
check_unary_expr-Keeps contents UnaryOperator.ref operator l operand span c m safe h k =
    let r = safe no_context m h tt in
    typed-Keeps span _ (after-Keeps r.wide (keep_unresolved _ r.is_typed))
check_unary_expr-Keeps contents UnaryOperator.ref_mut operator l operand span c m safe h k =
    let r = safe no_context m h tt in
    typed-Keeps span _ (after-Keeps r.wide (keep_unresolved _ r.is_typed))

-- Two types, and a model with tables that know them.
pub record KeepsTwo (t : Tables) (r : (ValueType × ValueType) × SemanticModel) : Type 0 where
  pub wide : Wide t (tables r.1)
  pub is_typed : Typed r.1
  pub left_known : Known (tables r.1) r.0.0
  pub right_known : Known (tables r.1) r.0.1

pub check_matched_operands-Keeps :
    (lf : Bool) (left : Check) (rf : Bool) (right : Check) (c : Context) (m : SemanticModel)
    → Safe left
    → Safe right
    → Typed m
    → KnownOption (tables m) c.0
    → KeepsTwo (tables m) (check_matched_operands lf left rf right c m)
unfolding check_matched_operands
check_matched_operands-Keeps true left false right c m sl sr h k =
    let r = sr no_context m h tt in
    let l =
      sl (anchor (right no_context m).0) (right no_context m).1 r.is_typed
        (anchor-Known _ _ r.known) in
    record {
      wide = Wide-trans r.wide l.wide;
      is_typed = l.is_typed;
      left_known = l.known;
      right_known = Known-Wide _ l.wide r.known;
    }
check_matched_operands-Keeps false left true right c m sl sr h k =
    let l = sl no_context m h tt in
    let r =
      sr (anchor (left no_context m).0) (left no_context m).1 l.is_typed
        (anchor-Known _ _ l.known) in
    record {
      wide = Wide-trans l.wide r.wide;
      is_typed = r.is_typed;
      left_known = Known-Wide _ r.wide l.known;
      right_known = r.known;
    }
check_matched_operands-Keeps true left true right c m sl sr h k =
    let l = sl c m h k in
    let r = sr c (left c m).1 l.is_typed (KnownOption-Wide c.0 l.wide k) in
    record {
      wide = Wide-trans l.wide r.wide;
      is_typed = r.is_typed;
      left_known = Known-Wide _ r.wide l.known;
      right_known = r.known;
    }
check_matched_operands-Keeps false left false right c m sl sr h k =
    let l = sl no_context m h tt in
    let r = sr no_context (left no_context m).1 l.is_typed tt in
    record {
      wide = Wide-trans l.wide r.wide;
      is_typed = r.is_typed;
      left_known = Known-Wide _ r.wide l.known;
      right_known = r.known;
    }

pub resolve_matched-Keeps :
    {t : Tables} (operator : SourceSpan) (accepts : ValueType → Bool) (b : Bool)
    (r : (ValueType × ValueType) × SemanticModel)
    → KeepsTwo t r
    → Keeps t (resolve_matched_operator_result operator accepts b r)
unfolding resolve_matched_operator_result
resolve_matched-Keeps operator accepts b ((l, r), m) k = after-Keeps k.wide (
    if-Keeps (is_error l || is_error r) (λ _. keep_error m k.is_typed)
      (λ _.
        if-Keeps (is_unresolved l || is_unresolved r) (λ _. keep_unresolved m k.is_typed)
          (λ _.
            if-Keeps (types_equal l r && accepts l)
              (λ _. keep _ m k.is_typed (if-Known b k.left_known (bool-Known (tables m))))
              (λ _. fails-Keeps _ m k.is_typed))))

logical_result-Keeps :
    (operator : SourceSpan) (l r : ValueType) (m : SemanticModel)
    → Typed m
    → Keeps (tables m) (logical_result operator l r m)
unfolding logical_result
logical_result-Keeps operator l r m h =
    if-Keeps (is_error l || is_error r) (λ _. keep_error m h)
      (λ _.
        if-Keeps (is_unresolved l || is_unresolved r) (λ _. keep_unresolved m h)
          (λ _.
            if-Keeps (is_bool l && is_bool r) (λ _. keep _ m h (bool-Known (tables m)))
              (λ _. fails-Keeps _ m h)))

binary_result-Keeps :
    (f : Family) (operator : SourceSpan) (lf : Bool) (left : Check) (rf : Bool) (right : Check)
    (c : Context) (m : SemanticModel)
    → Safe left
    → Safe right
    → Typed m
    → KnownOption (tables m) c.0
    → Keeps (tables m) (binary_result f operator lf left rf right c m)
unfolding binary_result check_range check_logical
binary_result-Keeps Family.range operator lf left rf right c m sl sr h k =
    let l = sl no_context m h tt in
    let r = sr no_context (left no_context m).1 l.is_typed tt in
    after-Keeps (Wide-trans l.wide r.wide) (keep_unresolved _ r.is_typed)
binary_result-Keeps Family.logical operator lf left rf right c m sl sr h k =
    let l = sl no_context m h tt in
    let r = sr no_context (left no_context m).1 l.is_typed tt in
    after-Keeps (Wide-trans l.wide r.wide) (logical_result-Keeps operator _ _ _ r.is_typed)
binary_result-Keeps (Family.arithmetic accepts) operator lf left rf right c m sl sr h k =
    resolve_matched-Keeps operator accepts true _ (
      check_matched_operands-Keeps lf left rf right _ m sl sr h
        (arithmetic_context-Known (tables m) c k))
binary_result-Keeps (Family.comparison accepts) operator lf left rf right c m sl sr h k =
    resolve_matched-Keeps operator accepts false _
      (check_matched_operands-Keeps lf left rf right no_context m sl sr h tt)

pub check_binary_expr-Keeps :
    (op : BinaryOperator) (operator : SourceSpan) (lf : Bool) (left : Check) (rf : Bool)
    (right : Check) (span : SourceSpan) (c : Context) (m : SemanticModel)
    → Safe left
    → Safe right
    → Typed m
    → KnownOption (tables m) c.0
    → Keeps (tables m) (check_binary_expr op operator lf left rf right span c m)
unfolding check_binary_expr
check_binary_expr-Keeps op operator lf left rf right span c m sl sr h k =
    typed-Keeps span _ (binary_result-Keeps (family op) operator lf left rf right c m sl sr h k)
