-- ===== src/Semantic/Checker/Statements.antt =====
-- Statements and functions in compiler/src/semantic/TypeChecker.cpp.
use kai_cc.Ast.Expr.{Expr, BinaryOperator, Identifier, expr_span}
use kai_cc.Ast.Stmt.{Stmt, Stmts, BlockStmt, block_stmt, IfBranches, ElseClause}
use kai_cc.Ast.TypeSyntax.{TypeSyntax, type_span}
use kai_cc.Base.{ℕ, Bool, true, false, not, ◌&&◌, Option, none, some, Bytes, ltb, if◌then◌else◌}
use kai_cc.Semantic.Checker.Calls.{expr_slice_provenance}
use kai_cc.Semantic.Checker.Expressions.{check_expr, infer_expr}
use kai_cc.Semantic.Checker.Literals.{
  no_context, can_accept_numeric_context, unwrap_paren_expr, is_concrete,
}
use kai_cc.Semantic.Checker.Operators.{
  Checked, check_matched_operands, resolve_matched_operator_result, mismatch,
}
use kai_cc.Semantic.Checker.Provenance.{merge_in_branch_result, leave_loop}
use kai_cc.Semantic.Model.{
  SemanticErrorKind, SemanticModel, SliceProvenance, add_error, plain_error, declaration_symbol,
  symbol,
}
use kai_cc.Semantic.Types.{
  ValueType, TypeKind, simple, types_equal, is_error, is_slice, is_str, is_integer,
}
use kai_cc.Semantic.Updates.{
  Provenances, id_key, set_expression_type, set_symbol_type, set_slice_provenance,
  restore_slice_provenance, begin_touch_tracking,
}
use kai_cc.Source.Location.{SourceSpan}

pub record ReturnContext : Type 0 where
  pub return_type : ValueType
  pub annotation_span : Option SourceSpan
  pub str_parameter_count : ℕ

-- The type of a declared name, and what is known of its slice.
unfoldable pub declare_type : Option ℕ → ValueType → SemanticModel → SemanticModel
declare_type none t m = m
declare_type (some id) t m = set_symbol_type id t m

unfoldable pub declare_provenance : Option ℕ → ValueType → Expr → SemanticModel → SemanticModel
declare_provenance none t e m = m
declare_provenance (some id) t e m =
    if is_slice t then set_slice_provenance id (expr_slice_provenance m e) m else m

abbrev pub declared_type : SemanticModel → Option ℕ → ValueType
declared_type m none = simple TypeKind.unresolved
declared_type m (some id) = elim (symbol m id) [
  | some s ↦ s.type
  | none ↦ simple TypeKind.unresolved
]

abbrev pub is_mismatch : ValueType → ValueType → Bool
is_mismatch actual expected = is_concrete actual && not (types_equal actual expected)

module _ (contents : Bytes) where
  -- A declaration with no annotation takes its initializer's type.
  unfoldable pub check_inferred : Option ℕ → Expr → SemanticModel → SemanticModel
  check_inferred id e m =
      let (t, m1) = infer_expr contents e m in declare_provenance id t e (declare_type id t m1)

  unfoldable pub check_annotated :
      Option ℕ → ValueType → SourceSpan → Expr → SemanticModel → SemanticModel
  check_annotated id declared annotation e m =
      let (t, m1) = check_expr contents e (some declared, some annotation) m in
      if is_mismatch t declared
      then add_error m1 (mismatch (expr_span e) (some annotation) declared t)
      else (if is_error t then m1 else declare_provenance id declared e m1)

  unfoldable pub check_var_decl :
      Identifier → Option TypeSyntax → Expr → SemanticModel → SemanticModel
  check_var_decl n none e m = check_inferred (declaration_symbol m n.span) e m
  check_var_decl n (some syntax) e m =
      let id = declaration_symbol m n.span in
      let declared = declared_type m id in
      if is_concrete declared
      then check_annotated id declared (type_span syntax) e m
      else (infer_expr contents e m).1

  unfoldable pub check_condition : Expr → SemanticModel → SemanticModel
  check_condition e m =
      let (t, m1) = check_expr contents e (some (simple TypeKind.bool), none) m in
      if is_mismatch t (simple TypeKind.bool)
      then add_error m1 (mismatch (expr_span e) none (simple TypeKind.bool) t)
      else m1

  unfoldable pub returned_value : Option Expr → ReturnContext → SemanticModel → Checked
  returned_value none context m = (simple TypeKind.unit, m)
  returned_value (some e) context m =
      check_expr contents e (some context.return_type, context.annotation_span) m

  abbrev pub is_literal : Expr → Bool
  is_literal (Expr.literal _ _) = true
  is_literal _ = false

  -- With several `str` parameters a function returns a literal only.
  unfoldable pub report_str_return : Expr → ReturnContext → SemanticModel → SemanticModel
  report_str_return e context m =
      if is_str context.return_type
        && ltb 1 context.str_parameter_count
        && not (is_literal (unwrap_paren_expr e))
      then add_error m (plain_error SemanticErrorKind.unsupported_str_return (expr_span e) none)
      else m

  abbrev pub is_external : SliceProvenance → Bool
  is_external SliceProvenance.external = true
  is_external _ = false

  -- A slice that may be of a local array does not leave the function.
  unfoldable pub report_escape : Expr → ValueType → ReturnContext → SemanticModel → SemanticModel
  report_escape e actual context m =
      if is_slice context.return_type
        && is_concrete actual
        && types_equal actual context.return_type
        && not (is_external (expr_slice_provenance m e))
      then add_error m (plain_error SemanticErrorKind.escaping_local_slice (expr_span e) none)
      else m

  unfoldable pub report_return :
      Option Expr → ValueType → ReturnContext → SemanticModel → SemanticModel
  report_return none actual context m = m
  report_return (some e) actual context m =
      report_escape e actual context (report_str_return e context m)

  abbrev pub return_span : Option Expr → SourceSpan → SourceSpan
  return_span none span = span
  return_span (some e) span = expr_span e

  unfoldable pub infer_value : Option Expr → SemanticModel → SemanticModel
  infer_value none m = m
  infer_value (some e) m = (infer_expr contents e m).1

  unfoldable pub check_return_stmt :
      Option Expr → SourceSpan → ReturnContext → SemanticModel → SemanticModel
  check_return_stmt value span context m =
      let (actual, m1) = returned_value value context m in
      if not (is_concrete context.return_type)
      then infer_value value m
      else (if is_mismatch actual context.return_type
          then add_error m1
              (mismatch (return_span value span) context.annotation_span context.return_type actual)
          else report_return value actual context m1)

  -- `a..b` with integers of one type, and no type of its own.
  unfoldable pub check_integer_range_for :
      SourceSpan → Expr → Expr → SourceSpan → SemanticModel → Checked
  check_integer_range_for operator left right span m =
      let operands =
        check_matched_operands (can_accept_numeric_context left)
          (λ c n. check_expr contents left c n) (can_accept_numeric_context right)
          (λ c n. check_expr contents right c n) no_context m in
      let (t, m1) = resolve_matched_operator_result operator is_integer true operands in
      (t, set_expression_type span (simple TypeKind.unresolved) m1)

  unfoldable pub check_other_iterable : Expr → SemanticModel → Checked
  check_other_iterable e m = (
    simple TypeKind.error,
    add_error (infer_expr contents e m).1
        (plain_error SemanticErrorKind.unsupported_for_iterable (expr_span e) none),
  )

  unfoldable pub check_iterable : Expr → SemanticModel → Checked
  check_iterable (Expr.binary BinaryOperator.range operator left right span) m =
      check_integer_range_for operator left right span m
  check_iterable e m = check_other_iterable e m

  -- The loop variable, with its type.
  unfoldable pub enter_for : Identifier → Expr → SemanticModel → SemanticModel
  enter_for n e m =
      let (t, m1) = check_iterable e m in
      begin_touch_tracking (declare_type (declaration_symbol m1 n.span) t m1)

  unfoldable mutual
    pub check_statement : ReturnContext → Stmt → SemanticModel → SemanticModel
    check_statement context (Stmt.block b) m = check_block context b m
    check_statement context (Stmt.expr e _) m = (infer_expr contents e m).1
    check_statement context (Stmt.var_decl _ n t e _) m = check_var_decl n t e m
    check_statement context (Stmt.return e span) m = check_return_stmt e span context m
    check_statement context (Stmt.if_stmt bs e _) m =
        let entry = m.slice_provenance in
        let (merged, m1) = check_branches context entry bs none m in
        let (all, m2) = check_else context entry merged e m1 in
        elim all [ some p ↦ restore_slice_provenance p m2 | none ↦ m2 ]
    check_statement context (Stmt.while c b _) m =
        leave_loop (check_block context b (begin_touch_tracking (check_condition c m)))
    check_statement context (Stmt.for n e b _) m =
        leave_loop (check_block context b (enter_for n e m))

    pub check_block : ReturnContext → BlockStmt → SemanticModel → SemanticModel
    check_block context (block_stmt ts _) m = check_statements context ts m

    pub check_statements : ReturnContext → Stmts → SemanticModel → SemanticModel
    check_statements context Stmts.nil m = m
    check_statements context (Stmts.cons t ts) m =
        check_statements context ts (check_statement context t m)

    -- Every branch starts from the entries in front of the statement.
    pub check_branches :
        ReturnContext
        → Provenances
        → IfBranches
        → Option Provenances
        → SemanticModel
        → Option Provenances × SemanticModel
    check_branches context entry IfBranches.end merged m = (merged, m)
    check_branches context entry (IfBranches.branch c b _ bs) merged m =
        let m1 = restore_slice_provenance entry (check_condition c m) in
        let m2 = check_block context b m1 in
        check_branches context entry bs (merge_in_branch_result entry merged m2.slice_provenance) m2

    pub check_else :
        ReturnContext
        → Provenances
        → Option Provenances
        → ElseClause
        → SemanticModel
        → Option Provenances × SemanticModel
    check_else context entry merged ElseClause.no_else m =
        (merge_in_branch_result entry merged entry, m)
    check_else context entry merged (ElseClause.else_clause b _) m =
        let m1 = check_block context b (restore_slice_provenance entry m) in
        (merge_in_branch_result entry merged m1.slice_provenance, m1)
