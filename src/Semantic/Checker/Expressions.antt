-- ===== src/Semantic/Checker/Expressions.antt =====
-- `checkExpr` of compiler/src/semantic/TypeChecker.cpp, over all expressions.
use kai_cc.Ast.Expr.{Expr, Exprs, Identifier, expr_span}
use kai_cc.Base.{
  ℕ, zero, suc, true, false, Option, none, some, List, [], ◌∷◌, Bytes, drop, if◌then◌else◌,
}
use kai_cc.Semantic.Checker.Arrays.{
  expected_element_type, check_array_literal, try_decode_constant_index, index_result,
}
use kai_cc.Semantic.Checker.Assignments.{assignment_result}
use kai_cc.Semantic.Checker.Calls.{
  symbol_of, callee_of, callee_parameters, Arguments, no_arguments, argument_context,
  report_argument, with_argument, call_result, is_variable,
}
use kai_cc.Semantic.Checker.Literals.{
  Context, no_context, unwrap_adaptable_literal, can_accept_numeric_context, typed,
  check_literal_expr,
}
use kai_cc.Semantic.Checker.Operators.{Checked, check_unary_expr, check_binary_expr}
use kai_cc.Semantic.Model.{SemanticModel}
use kai_cc.Semantic.Types.{ValueType, TypeKind, simple}

unfoldable pub identifier_type : SemanticModel → Identifier → ValueType
identifier_type m n = elim (symbol_of m (some n)) [
  | some (_, s) ↦ if is_variable s.kind then s.type else simple TypeKind.unresolved
  | none ↦ simple TypeKind.error
]

module _ (contents : Bytes) where
  unfoldable mutual
    -- With a context of its own an expression is checked, and with none its type is inferred.
    pub check_expr : Expr → Context → SemanticModel → Checked
    check_expr (Expr.literal kind span) context m = check_literal_expr contents kind span context m
    check_expr (Expr.unit span) context m = typed span (simple TypeKind.unit, m)
    check_expr (Expr.identifier n span) context m = typed span (identifier_type m n, m)
    check_expr (Expr.paren inner span) context m = typed span (check_expr inner context m)
    check_expr (Expr.unary op operator operand span) context m =
        check_unary_expr contents op operator (unwrap_adaptable_literal operand)
          (λ c n. check_expr operand c n) span context m
    check_expr (Expr.binary op operator left right span) context m =
        check_binary_expr op operator (can_accept_numeric_context left) (λ c n. check_expr left c n)
          (can_accept_numeric_context right) (λ c n. check_expr right c n) span context m
    check_expr (Expr.call callee es span) context m =
        let (t, m1) = check_expr callee no_context m in
        let a = check_arguments es (callee_parameters (callee_of m callee)) m1 in
        typed span (call_result (callee_of m callee) (expr_span callee) es span t a)
    check_expr (Expr.assignment target _ value span) context m = typed span (
        assignment_result target (λ c n. check_expr target c n) value (λ c n. check_expr value c n)
          m)
    check_expr (Expr.array_literal es span) context m = typed span (
        check_array_literal es span (expected_element_type context.0 m) (λ n. check_anchor es n)
          (λ skip c n. check_elements es skip c n) m)
    check_expr (Expr.index object place span) context m =
        let (t, m1) = check_expr object no_context m in
        let (i, m2) = check_expr place no_context m1 in
        typed span (
          index_result (try_decode_constant_index contents place) (expr_span object)
            (expr_span place) t i m2)
    check_expr (Expr.member object _ span) context m =
        typed span (simple TypeKind.unresolved, (check_expr object no_context m).1)
    check_expr (Expr.error_propagation operand _ span) context m =
        typed span (simple TypeKind.unresolved, (check_expr operand no_context m).1)

    pub check_arguments : Exprs → List ValueType → SemanticModel → Arguments
    check_arguments Exprs.nil parameters m = no_arguments m
    check_arguments (Exprs.cons e es) parameters m =
        let (t, m1) =
          report_argument parameters (expr_span e) (check_expr e (argument_context parameters) m) in
        with_argument parameters t (check_arguments es (drop 1 parameters) m1)

    -- The anchor's place and type.
    pub check_anchor : Exprs → SemanticModel → Option (ℕ × ValueType) × SemanticModel
    check_anchor Exprs.nil m = (none, m)
    check_anchor (Exprs.cons e es) m = elim (can_accept_numeric_context e) [
      | false ↦ let (t, m1) = check_expr e no_context m in (some (zero, t), m1)
      | true ↦
          let (found, m1) = check_anchor es m in
          (elim found [ some (i, t) ↦ some (suc i, t) | none ↦ none ], m1)
    ]

    -- All elements but the anchor, which was checked before.
    pub check_elements :
        Exprs → Option ℕ → Option ValueType → SemanticModel → List ValueType × SemanticModel
    check_elements Exprs.nil skip context m = ([], m)
    check_elements (Exprs.cons e es) (some zero) context m =
        let (ts, m1) = check_elements es none context m in
        (elim context [ some t ↦ t ∷ ts | none ↦ ts ], m1)
    check_elements (Exprs.cons e es) (some (suc i)) context m =
        let (t, m1) = check_expr e (context, none) m in
        let (ts, m2) = check_elements es (some i) context m1 in (t ∷ ts, m2)
    check_elements (Exprs.cons e es) none context m =
        let (t, m1) = check_expr e (context, none) m in
        let (ts, m2) = check_elements es none context m1 in (t ∷ ts, m2)

  abbrev pub infer_expr : Expr → SemanticModel → Checked
  infer_expr e m = check_expr e no_context m
