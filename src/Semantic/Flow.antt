-- ===== src/Semantic/Flow.antt =====
-- compiler/src/semantic/ControlFlowAnalyzer.cpp: the check that a function which must return a
-- value does so on every path. The return types come from the semantic model, a parameter here.
pub mod Paths
pub mod Exact
pub mod Missing
use kai_cc.Ast.Decl.{FunctionDecl}
use kai_cc.Ast.Stmt.{
  Stmt, block, expr, var_decl, return, if_stmt, while, for, BlockStmt, block_stmt, Stmts, nil, cons,
  IfBranches, end, branch, ElseClause, no_else, else_clause,
}
use kai_cc.Ast.TypeSyntax.{type_span}
use kai_cc.Base.{Bool, ◌||◌, List, [], ◌∷◌, ◌++◌, Option, some, none, if◌then◌else◌}
use kai_cc.Semantic.Types.{ValueType, TypeKind, simple, types_equal, is_error, is_unresolved}
use kai_cc.Source.Location.{SourceSpan}

pub data FlowResult : Type 0 where
  falls_through always_returns : FlowResult

-- The first that always returns decides a sequence; the first that falls through decides an `if`.
abbrev pub either : FlowResult → FlowResult → FlowResult
either always_returns b = always_returns
either falls_through b = b

abbrev pub both : FlowResult → FlowResult → FlowResult
both falls_through b = falls_through
both always_returns b = b

unfoldable mutual
  pub analyze_block : BlockStmt → FlowResult
  analyze_block (block_stmt ts _) = analyze_statements ts

  -- The loop of `analyzeBlock`.
  pub analyze_statements : Stmts → FlowResult
  analyze_statements nil = falls_through
  analyze_statements (cons t ts) = either (analyze_statement t) (analyze_statements ts)

  pub analyze_statement : Stmt → FlowResult
  analyze_statement (block b) = analyze_block b
  analyze_statement (expr _ _) = falls_through
  analyze_statement (var_decl _ _ _ _ _) = falls_through
  analyze_statement (return _ _) = always_returns
  analyze_statement (if_stmt bs e _) = both (analyze_branches bs) (analyze_else e)
  analyze_statement (while _ _ _) = falls_through
  analyze_statement (for _ _ _ _) = falls_through

  -- The loop of `analyzeIfStmt`.
  pub analyze_branches : IfBranches → FlowResult
  analyze_branches end = always_returns
  analyze_branches (branch _ b _ bs) = both (analyze_block b) (analyze_branches bs)

  -- With no `else` an `if` falls through.
  pub analyze_else : ElseClause → FlowResult
  analyze_else no_else = falls_through
  analyze_else (else_clause b _) = analyze_block b

-- The error MissingReturn, at the span of the declared return type, with that type.
pub record MissingReturn : Type 0 where
  pub span : Option SourceSpan
  pub return_type : ValueType

abbrev pub return_type_span : FunctionDecl → Option SourceSpan
return_type_span fn = elim fn.return_type [ none ↦ none | some t ↦ some (type_span t) ]

abbrev pub is_exempt : ValueType → Bool
is_exempt t = is_error t || is_unresolved t || types_equal t (simple TypeKind.unit)

-- The errors that `checkFunctionDecl` adds to the model.
unfoldable pub check_function_decl : (FunctionDecl → ValueType) → FunctionDecl → List MissingReturn
check_function_decl signature fn =
    let missing = record { span = return_type_span fn; return_type = signature fn } ∷ [] in
    if is_exempt (signature fn)
    then []
    else elim (analyze_block fn.body) [ falls_through ↦ missing | always_returns ↦ [] ]

unfoldable pub check : (FunctionDecl → ValueType) → List FunctionDecl → List MissingReturn
check signature [] = []
check signature (fn ∷ fns) = check_function_decl signature fn ++ check signature fns
