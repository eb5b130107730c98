-- ===== src/Semantic/Analyzer/Problems.antt =====
-- The diagnostics that a file deserves, read off its names alone: no symbols, no ids, and one list
-- of visible names in place of a stack of scopes. Each is a kind and a place, in source order.
use kai_cc.Ast.Decl.{Param, FunctionDecl, SourceFile}
use kai_cc.Ast.Expr.{Expr, Exprs, Identifier}
use kai_cc.Ast.Stmt.{Stmt, BlockStmt, block_stmt, Stmts, IfBranches, ElseClause}
use kai_cc.Ast.TypeSyntax.{TypeSyntax}
use kai_cc.Base.{
  Bool, false, ◌||◌, Option, none, some, List, [], ◌∷◌, ◌++◌, Bytes, codes, if◌then◌else◌,
}
use kai_cc.Lexer.Keywords.{equal}
use kai_cc.Semantic.Analyzer.TypeNames.{primitive_names}
use kai_cc.Semantic.Model.{SemanticErrorKind}
use kai_cc.Semantic.Types.{TypeKind}
use kai_cc.Source.Location.{SourceSpan}
use kai_cc.Source.Text.{text}

abbrev pub Problem : Type 0
Problem = SemanticErrorKind × SourceSpan

abbrev pub builtin_names : List Bytes
builtin_names = codes "len" ∷ codes "slice" ∷ codes "assert" ∷ codes "panic" ∷ codes "print" ∷ []

unfoldable pub has : Bytes → List Bytes → Bool
has name [] = false
has name (x ∷ xs) = equal x name || has name xs

-- A name once.
unfoldable pub with_name : Bytes → List Bytes → List Bytes
with_name name here = if has name here then here else name ∷ here

unfoldable pub is_primitive : List (Bytes × TypeKind) → Bytes → Bool
is_primitive [] name = false
is_primitive ((spelling, _) ∷ table) name = equal name spelling || is_primitive table name

module _ (contents : Bytes) where
  -- A name that no type has, inside arrays and slices too, but not inside what is deferred.
  unfoldable pub type_problems : TypeSyntax → List Problem
  type_problems (TypeSyntax.named n _) =
      if is_primitive primitive_names (text contents n.span)
      then []
      else (SemanticErrorKind.unknown_type, n.span) ∷ []
  type_problems (TypeSyntax.unit _) = []
  type_problems (TypeSyntax.array e _ _) = type_problems e
  type_problems (TypeSyntax.slice e _) = type_problems e
  type_problems (TypeSyntax.reference _ _ _ _) = []
  type_problems (TypeSyntax.generic _ _ _) = []

  abbrev pub annotation_problems : Option TypeSyntax → List Problem
  annotation_problems none = []
  annotation_problems (some t) = type_problems t

  unfoldable mutual
    pub expr_problems : List Bytes → Expr → List Problem
    expr_problems visible (Expr.identifier n _) =
        if has (text contents n.span) visible
        then []
        else (SemanticErrorKind.unknown_identifier, n.span) ∷ []
    expr_problems visible (Expr.literal _ _) = []
    expr_problems visible (Expr.unit _) = []
    expr_problems visible (Expr.call f es _) = expr_problems visible f ++ exprs_problems visible es
    expr_problems visible (Expr.paren e _) = expr_problems visible e
    expr_problems visible (Expr.unary _ _ e _) = expr_problems visible e
    expr_problems visible (Expr.binary _ _ l r _) =
        expr_problems visible l ++ expr_problems visible r
    expr_problems visible (Expr.assignment t _ v _) =
        expr_problems visible t ++ expr_problems visible v
    expr_problems visible (Expr.array_literal es _) = exprs_problems visible es
    expr_problems visible (Expr.index e i _) = expr_problems visible e ++ expr_problems visible i
    expr_problems visible (Expr.member e _ _) = expr_problems visible e
    expr_problems visible (Expr.error_propagation e _ _) = expr_problems visible e

    pub exprs_problems : List Bytes → Exprs → List Problem
    exprs_problems visible Exprs.nil = []
    exprs_problems visible (Exprs.cons e es) = expr_problems visible e ++ exprs_problems visible es

  abbrev pub value_problems : List Bytes → Option Expr → List Problem
  value_problems visible none = []
  value_problems visible (some e) = expr_problems visible e

  -- A name that the scope has already.
  unfoldable pub declaration_problems : List Bytes → Identifier → List Problem
  declaration_problems here n =
      if has (text contents n.span) here
      then (SemanticErrorKind.duplicate_symbol, n.span) ∷ []
      else []

  -- The names of a scope behind a statement.
  unfoldable pub declared : List Bytes → Stmt → List Bytes
  declared here (Stmt.var_decl _ n _ _ _) = with_name (text contents n.span) here
  declared here _ = here

  -- `here` are the names of the innermost scope, and `outer` those of all others.
  unfoldable mutual
    pub statement_problems : List Bytes → List Bytes → Stmt → List Problem
    statement_problems here outer (Stmt.var_decl _ n t e _) =
        annotation_problems t ++ (expr_problems (here ++ outer) e ++ declaration_problems here n)
    statement_problems here outer (Stmt.if_stmt bs e _) =
        branches_problems (here ++ outer) bs ++ else_problems (here ++ outer) e
    statement_problems here outer (Stmt.while c b _) =
        expr_problems (here ++ outer) c ++ block_problems (here ++ outer) b
    statement_problems here outer (Stmt.for n e (block_stmt ts _) _) =
        expr_problems (here ++ outer) e
        ++ statements_problems (text contents n.span ∷ []) (here ++ outer) ts
    statement_problems here outer (Stmt.block b) = block_problems (here ++ outer) b
    statement_problems here outer (Stmt.expr e _) = expr_problems (here ++ outer) e
    statement_problems here outer (Stmt.return e _) = value_problems (here ++ outer) e

    pub statements_problems : List Bytes → List Bytes → Stmts → List Problem
    statements_problems here outer Stmts.nil = []
    statements_problems here outer (Stmts.cons t ts) =
        statement_problems here outer t ++ statements_problems (declared here t) outer ts

    -- A block has names of its own.
    pub block_problems : List Bytes → BlockStmt → List Problem
    block_problems outer (block_stmt ts _) = statements_problems [] outer ts

    pub branches_problems : List Bytes → IfBranches → List Problem
    branches_problems outer IfBranches.end = []
    branches_problems outer (IfBranches.branch c b _ bs) =
        expr_problems outer c ++ (block_problems outer b ++ branches_problems outer bs)

    pub else_problems : List Bytes → ElseClause → List Problem
    else_problems outer ElseClause.no_else = []
    else_problems outer (ElseClause.else_clause b _) = block_problems outer b

  unfoldable pub params_type_problems : List Param → List Problem
  params_type_problems [] = []
  params_type_problems (p ∷ ps) = type_problems p.type ++ params_type_problems ps

  -- The heads of the functions: their names, and the types of their signatures.
  unfoldable pub heads_problems : List Bytes → List FunctionDecl → List Problem
  heads_problems above [] = []
  heads_problems above (fn ∷ fns) =
      declaration_problems above fn.name
      ++ (params_type_problems fn.params
          ++ (annotation_problems fn.return_type
              ++ heads_problems (with_name (text contents fn.name.span) above) fns))

  unfoldable pub function_names : List Bytes → List FunctionDecl → List Bytes
  function_names above [] = above
  function_names above (fn ∷ fns) =
      function_names (with_name (text contents fn.name.span) above) fns

  unfoldable pub params_problems : List Bytes → List Param → List Problem
  params_problems here [] = []
  params_problems here (p ∷ ps) =
      declaration_problems here p.name
      ++ params_problems (with_name (text contents p.name.span) here) ps

  unfoldable pub param_names : List Bytes → List Param → List Bytes
  param_names here [] = here
  param_names here (p ∷ ps) = param_names (with_name (text contents p.name.span) here) ps

  -- Parameters and the body share a scope.
  abbrev pub body_problems : List Bytes → FunctionDecl → BlockStmt → List Problem
  body_problems outer fn (block_stmt ts _) =
      params_problems [] fn.params ++ statements_problems (param_names [] fn.params) outer ts

  unfoldable pub bodies_problems : List Bytes → List FunctionDecl → List Problem
  bodies_problems outer [] = []
  bodies_problems outer (fn ∷ fns) = body_problems outer fn fn.body ++ bodies_problems outer fns

  -- Every function is visible in every body, and the prelude behind the functions.
  unfoldable pub file_problems : SourceFile → List Problem
  file_problems file =
      heads_problems [] file.declarations
      ++ bodies_problems (function_names [] file.declarations ++ builtin_names) file.declarations
