-- ===== src/Semantic/Checker/Typed/Bodies.antt =====
-- Blocks, branches, loops and files in compiler/src/semantic/TypeChecker.cpp, and the types in a
-- model.
use kai_cc.Ast.Decl.{Param, FunctionDecl, SourceFile}
use kai_cc.Ast.Expr.{Expr, Identifier, BinaryOperator}
use kai_cc.Ast.Stmt.{Stmt, Stmts, BlockStmt, block_stmt, IfBranches, ElseClause}
use kai_cc.Base.{ℕ, Option, none, some, List, [], ◌∷◌, Bytes, ◌≡◌, inl, inr, refl, Bool-cases}
use kai_cc.Semantic.Checker.Functions.{
  signature_return, symbol_return, declared_return, return_context, seed_parameter, seed_parameters,
  check_function_body, check_functions, check_types,
}
use kai_cc.Semantic.Checker.Provenance.{leave_loop, set_all_unknown, merge_in_branch_result}
use kai_cc.Semantic.Checker.Statements.{
  ReturnContext, declared_type, check_condition, check_iterable, enter_for, check_statement,
  check_block, check_statements, check_branches, check_else,
}
use kai_cc.Semantic.Checker.Typed.Statements.{
  KeepsModel, same_tables, model-Keeps, after-KeepsModel, declare_type-Keeps, infer-Keeps,
  check_var_decl-Keeps, check_condition-Keeps, check_return_stmt-Keeps, range-Keeps, other-Keeps,
}
use kai_cc.Semantic.Checker.Typed.{
  Tables, tables, Known, Known-Wide, KnownSignature, KnownSymbol, Typed, Wide-refl, Wide-trans,
  Keeps, unresolved-Known,
}
use kai_cc.Semantic.Model.{SemanticModel, SliceProvenance, symbol, declaration_symbol}
use kai_cc.Semantic.Symbol.{Symbol, FunctionSignature}
use kai_cc.Semantic.Types.{is_slice}
use kai_cc.Semantic.Updates.{
  Provenances, restore_slice_provenance, begin_touch_tracking, set_slice_provenance,
}

unknown-Keeps :
    {t : Tables} (ids : List ℕ) (m : SemanticModel)
    → KeepsModel t m
    → KeepsModel t (set_all_unknown ids m)
unfolding set_all_unknown
unknown-Keeps [] m k = k
unknown-Keeps (id ∷ ids) m k =
    unknown-Keeps ids (set_slice_provenance id SliceProvenance.unknown m)
      (record { wide = k.wide; is_typed = k.is_typed })

leave_loop-Keeps : {t : Tables} (m : SemanticModel) → KeepsModel t m → KeepsModel t (leave_loop m)
unfolding leave_loop
leave_loop-Keeps m k = unknown-Keeps _ _ (record { wide = k.wide; is_typed = k.is_typed })

restored-Keeps :
    {t : Tables} (p : Option Provenances) (m : SemanticModel)
    → KeepsModel t m
    → KeepsModel t (elim p [ some entries ↦ restore_slice_provenance entries m | none ↦ m ])
restored-Keeps none m k = k
restored-Keeps (some entries) m k = record { wide = k.wide; is_typed = k.is_typed }

module _ (contents : Bytes) where
  check_iterable-Keeps :
      (e : Expr) (m : SemanticModel) → Typed m → Keeps (tables m) (check_iterable contents e m)
  unfolding check_iterable
  check_iterable-Keeps (Expr.binary BinaryOperator.range operator left right span) m h =
      range-Keeps contents operator left right span m h
  check_iterable-Keeps e m h = other-Keeps contents e m h

  enter_for-Keeps :
      (n : Identifier) (e : Expr) (m : SemanticModel)
      → Typed m
      → KeepsModel (tables m) (enter_for contents n e m)
  unfolding enter_for
  enter_for-Keeps n e m h =
      let r = check_iterable-Keeps e m h in
      let (v, m1) = check_iterable contents e m in
      let k =
        after-KeepsModel _ r.wide
          (declare_type-Keeps (declaration_symbol m1 n.span) v m1 r.is_typed r.known) in
      record { wide = k.wide; is_typed = k.is_typed }

  mutual
    unfolding check_statement check_block check_statements check_branches check_else

    check_statement-Keeps :
        (context : ReturnContext) (s : Stmt) (m : SemanticModel)
        → Typed m
        → Known (tables m) context.return_type
        → KeepsModel (tables m) (check_statement contents context s m)
    check_statement-Keeps context (Stmt.block b) m h k = check_block-Keeps context b m h k
    check_statement-Keeps context (Stmt.expr e span) m h k =
        model-Keeps _ (infer-Keeps contents e m h)
    check_statement-Keeps context (Stmt.var_decl kind n t e span) m h k =
        check_var_decl-Keeps contents n t e m h
    check_statement-Keeps context (Stmt.return e span) m h k =
        check_return_stmt-Keeps contents e span context m h k
    check_statement-Keeps context (Stmt.if_stmt bs e span) m h k =
        let r = check_branches-Keeps context m.slice_provenance bs none m h k in
        let (merged, m1) = check_branches contents context m.slice_provenance bs none m in
        let q =
          check_else-Keeps context m.slice_provenance merged e m1 r.is_typed
            (Known-Wide _ r.wide k) in
        restored-Keeps _ _ (after-KeepsModel _ r.wide q)
    check_statement-Keeps context (Stmt.while c b span) m h k =
        let r = check_condition-Keeps contents c m h in
        let q =
          check_block-Keeps context b (begin_touch_tracking (check_condition contents c m))
            r.is_typed (Known-Wide _ r.wide k) in
        leave_loop-Keeps _ (after-KeepsModel _ r.wide q)
    check_statement-Keeps context (Stmt.for n e b span) m h k =
        let r = enter_for-Keeps n e m h in
        let q =
          check_block-Keeps context b (enter_for contents n e m) r.is_typed
            (Known-Wide _ r.wide k) in
        leave_loop-Keeps _ (after-KeepsModel _ r.wide q)

    check_block-Keeps :
        (context : ReturnContext) (b : BlockStmt) (m : SemanticModel)
        → Typed m
        → Known (tables m) context.return_type
        → KeepsModel (tables m) (check_block contents context b m)
    check_block-Keeps context (block_stmt ts span) m h k = check_statements-Keeps context ts m h k

    check_statements-Keeps :
        (context : ReturnContext) (ts : Stmts) (m : SemanticModel)
        → Typed m
        → Known (tables m) context.return_type
        → KeepsModel (tables m) (check_statements contents context ts m)
    check_statements-Keeps context Stmts.nil m h k = same_tables m h
    check_statements-Keeps context (Stmts.cons t ts) m h k =
        let r = check_statement-Keeps context t m h k in
        let q =
          check_statements-Keeps context ts (check_statement contents context t m) r.is_typed
            (Known-Wide _ r.wide k) in
        after-KeepsModel _ r.wide q

    check_branches-Keeps :
        (context : ReturnContext) (entry : Provenances) (bs : IfBranches)
        (merged : Option Provenances) (m : SemanticModel)
        → Typed m
        → Known (tables m) context.return_type
        → KeepsModel (tables m) (check_branches contents context entry bs merged m).1
    check_branches-Keeps context entry IfBranches.end merged m h k = same_tables m h
    check_branches-Keeps context entry (IfBranches.branch c b span bs) merged m h k =
        let r = check_condition-Keeps contents c m h in
        let m1 = restore_slice_provenance entry (check_condition contents c m) in
        let q = check_block-Keeps context b m1 r.is_typed (Known-Wide _ r.wide k) in
        let m2 = check_block contents context b m1 in
        let rest =
          check_branches-Keeps context entry bs
            (merge_in_branch_result entry merged m2.slice_provenance) m2 q.is_typed
            (Known-Wide _ (Wide-trans r.wide q.wide) k) in
        after-KeepsModel _ (Wide-trans r.wide q.wide) rest

    check_else-Keeps :
        (context : ReturnContext) (entry : Provenances) (merged : Option Provenances)
        (e : ElseClause) (m : SemanticModel)
        → Typed m
        → Known (tables m) context.return_type
        → KeepsModel (tables m) (check_else contents context entry merged e m).1
    check_else-Keeps context entry merged ElseClause.no_else m h k = same_tables m h
    check_else-Keeps context entry merged (ElseClause.else_clause b span) m h k =
        check_block-Keeps context b (restore_slice_provenance entry m) h k

  signature_return-Known :
      (t : Tables) (f : Option FunctionSignature)
      → KnownSignature t f
      → Known t (signature_return f)
  signature_return-Known t none k = unresolved-Known t
  signature_return-Known t (some f) k = k.1

  symbol_return-Known :
      (t : Tables) (found : Option Symbol)
      → ((s : Symbol) → found ≡ some s → KnownSymbol t s)
      → Known t (symbol_return found)
  symbol_return-Known t none k = unresolved-Known t
  symbol_return-Known t (some s) k = signature_return-Known t s.signature (k s refl).signature_known

  declared_return-Known :
      (m : SemanticModel) (id : Option ℕ) → Typed m → Known (tables m) (declared_return m id)
  declared_return-Known m none h = unresolved-Known (tables m)
  declared_return-Known m (some id) h =
      symbol_return-Known (tables m) (symbol m id) (h.symbols_known id)

  seed_parameter-Keeps :
      (id : Option ℕ) (m : SemanticModel) → Typed m → KeepsModel (tables m) (seed_parameter id m)
  unfolding seed_parameter
  seed_parameter-Keeps none m h = same_tables m h
  seed_parameter-Keeps (some id) m h = elim (Bool-cases (is_slice (declared_type m (some id)))) [
    | inl e ↦ rw (e, seed_parameter) (record { wide = Wide-refl (tables m); is_typed = h })
    | inr e ↦ rw (e, seed_parameter) (same_tables m h)
  ]

  seed_parameters-Keeps :
      (ps : List Param) (m : SemanticModel) → Typed m → KeepsModel (tables m) (seed_parameters ps m)
  unfolding seed_parameters
  seed_parameters-Keeps [] m h = same_tables m h
  seed_parameters-Keeps (p ∷ ps) m h =
      let r = seed_parameter-Keeps (declaration_symbol m p.name.span) m h in
      after-KeepsModel _ r.wide
        (seed_parameters-Keeps ps (seed_parameter (declaration_symbol m p.name.span) m) r.is_typed)

  function-Keeps :
      (fn : FunctionDecl) (m : SemanticModel)
      → Typed m
      → KeepsModel (tables m) (check_function_body contents fn m)
  unfolding check_function_body return_context
  function-Keeps fn m h =
      let r = seed_parameters-Keeps fn.params m h in
      let k = declared_return-Known m (declaration_symbol m fn.name.span) h in
      after-KeepsModel _ r.wide (
        check_block-Keeps (return_context fn m) fn.body (seed_parameters fn.params m) r.is_typed
          (Known-Wide _ r.wide k))

  functions-Keeps :
      (fns : List FunctionDecl) (m : SemanticModel)
      → Typed m
      → KeepsModel (tables m) (check_functions contents fns m)
  unfolding check_functions
  functions-Keeps [] m h = same_tables m h
  functions-Keeps (fn ∷ fns) m h =
      let r = function-Keeps fn m h in
      after-KeepsModel _ r.wide (functions-Keeps fns (check_function_body contents fn m) r.is_typed)

  pub check_types-Keeps :
      (file : SourceFile) (m : SemanticModel)
      → Typed m
      → KeepsModel (tables m) (check_types contents file m)
  unfolding check_types
  check_types-Keeps file m h = functions-Keeps file.declarations m h
