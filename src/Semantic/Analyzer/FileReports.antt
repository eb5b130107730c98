-- ===== src/Semantic/Analyzer/FileReports.antt =====
-- What the two passes report of a file.
use kai_cc.Ast.Decl.{Param, FunctionDecl, SourceFile}
use kai_cc.Ast.Stmt.{BlockStmt, block_stmt}
use kai_cc.Ast.TypeSyntax.{TypeSyntax}
use kai_cc.Base.{
  Option, none, some, List, [], ◌∷◌, ◌++◌, append-nil, append_assoc, Bytes, ◌≡◌, refl, subst, ap,
  ◌∙◌, find, emplace,
}
use kai_cc.Lexer.Keywords.{equal}
use kai_cc.Semantic.Analyzer.Bodies.{analyze_block_contents}
use kai_cc.Semantic.Analyzer.BodyReports.{contents-Adds}
use kai_cc.Semantic.Analyzer.NameReports.{
  names, stack_names, names-emplace, duplicate-Adds, declare-Adds, declare-names,
}
use kai_cc.Semantic.Analyzer.Passes.{
  resolve_params, resolve_return, resolve_function_signature, collect_function_decl,
  collect_declarations, prelude_names, build_prelude, declare_params, analyze_function_body,
  analyze_bodies, analyze,
}
use kai_cc.Semantic.Analyzer.Problems.{
  Problem, declaration_problems, with_name, annotation_problems, params_type_problems,
  heads_problems, function_names, params_problems, param_names, statements_problems, body_problems,
  bodies_problems, file_problems, builtin_names,
}
use kai_cc.Semantic.Analyzer.Reports.{Adds, Adds-nothing, ◌⟫◌, type-Adds, quietly, renamed, reports}
use kai_cc.Semantic.Analyzer.Scopes.{Scope, ScopeStack, name_key, new_symbol}
use kai_cc.Semantic.Model.{SemanticModel, empty_model}
use kai_cc.Semantic.Types.{ValueType}
use kai_cc.Source.Text.{text}

regroup :
    (a b c d : List Problem) {m m' : SemanticModel}
    → Adds m ((a ++ (b ++ c)) ++ d) m'
    → Adds m (a ++ (b ++ (c ++ d))) m'
regroup a b c d {m} {m'} h =
    subst (λ ps. Adds m ps m') (append_assoc a (b ++ c) d ∙ ap (λ r. a ++ r) (append_assoc b c d)) h

module _ (contents : Bytes) where
  params_type-Adds :
      (ps : List Param) (m : SemanticModel)
      → Adds m (params_type_problems contents ps) (resolve_params contents ps m).1
  unfolding params_type_problems resolve_params
  params_type-Adds [] m = Adds-nothing m
  params_type-Adds (p ∷ ps) m = type-Adds contents p.type m ⟫ params_type-Adds ps _

  return-Adds :
      (t : Option TypeSyntax) (m : SemanticModel)
      → Adds m (annotation_problems contents t) (resolve_return contents t m).1
  unfolding resolve_return
  return-Adds none m = Adds-nothing m
  return-Adds (some t) m = type-Adds contents t m

  function-Adds :
      (fn : FunctionDecl) (top : Scope) (m : SemanticModel)
      → Adds m
          (declaration_problems contents (names top) fn.name
            ++ (params_type_problems contents fn.params
                ++ annotation_problems contents fn.return_type))
          (collect_function_decl contents fn top m).1
  unfolding collect_function_decl resolve_function_signature new_symbol
  function-Adds fn top m = quietly refl (
      duplicate-Adds contents top fn.name m
      ⟫ (params_type-Adds fn.params _ ⟫ return-Adds fn.return_type _))

  function-names :
      (fn : FunctionDecl) (top : Scope) (m : SemanticModel)
      → names (collect_function_decl contents fn top m).0
        ≡ with_name (text contents fn.name.span) (names top)
  unfolding collect_function_decl
  function-names fn top m = names-emplace _ _ top

  collect-names :
      (fns : List FunctionDecl) (top : Scope) (m : SemanticModel)
      → names (collect_declarations contents fns top m).0 ≡ function_names contents (names top) fns
  unfolding collect_declarations function_names
  collect-names [] top m = refl
  collect-names (fn ∷ fns) top m =
      collect-names fns _ _
      ∙ ap (λ here. function_names contents here fns) (function-names fn top m)

  heads-Adds :
      (fns : List FunctionDecl) (top : Scope) (m : SemanticModel)
      → Adds m (heads_problems contents (names top) fns) (collect_declarations contents fns top m).1
  unfolding heads_problems collect_declarations
  heads-Adds [] top m = Adds-nothing m
  heads-Adds (fn ∷ fns) top m =
      regroup (declaration_problems contents (names top) fn.name)
        (params_type_problems contents fn.params) (annotation_problems contents fn.return_type) _
        (function-Adds fn top m
          ⟫ renamed (λ here. heads_problems contents here fns) (function-names fn top m)
              (heads-Adds fns _ _))

  params-names :
      (ps : List Param) (ts : List ValueType) (scope : Scope) (m : SemanticModel)
      → names (declare_params contents ps ts scope m).0 ≡ param_names contents (names scope) ps
  unfolding declare_params param_names
  params-names [] ts scope m = refl
  params-names (p ∷ ps) ts scope m =
      params-names ps _ _ _
      ∙ ap (λ here. param_names contents here ps) (declare-names contents scope _ p.name _ _ m)

  params-Adds :
      (ps : List Param) (ts : List ValueType) (scope : Scope) (m : SemanticModel)
      → Adds m (params_problems contents (names scope) ps) (declare_params contents ps ts scope m).1
  unfolding declare_params params_problems
  params-Adds [] ts scope m = Adds-nothing m
  params-Adds (p ∷ ps) ts scope m =
      declare-Adds contents scope _ p.name _ _ m
      ⟫ renamed (λ here. params_problems contents here ps)
          (declare-names contents scope _ p.name _ _ m) (params-Adds ps _ _ _)

  stack_names-file :
      (file_scope prelude : Scope)
      → names prelude ≡ builtin_names
      → stack_names (file_scope ∷ prelude ∷ []) ≡ names file_scope ++ builtin_names
  unfolding stack_names
  stack_names-file file_scope prelude e = rw (e, append-nil) refl

  block-Adds :
      (outer : List Bytes) (fn : FunctionDecl) (b : BlockStmt) (scope : Scope) (stack : ScopeStack)
      (m m' : SemanticModel)
      → names scope ≡ param_names contents [] fn.params
      → stack_names stack ≡ outer
      → Adds m (params_problems contents [] fn.params) m'
      → Adds m
          (body_problems contents outer fn b)
          (analyze_block_contents contents scope stack b m').1
  unfolding analyze_block_contents
  block-Adds outer fn (block_stmt ts _) scope stack m m' e o a =
      a
      ⟫ renamed
          (λ around. statements_problems contents (param_names contents [] fn.params) around ts) o
          (renamed (λ here. statements_problems contents here (stack_names stack) ts) e
            (contents-Adds contents scope stack ts m'))

  module _ (prelude : Scope) (is_prelude : names prelude ≡ builtin_names) (file_scope : Scope) where
    body-Adds :
        (fn : FunctionDecl) (m : SemanticModel)
        → Adds m
            (body_problems contents (names file_scope ++ builtin_names) fn fn.body)
            (analyze_function_body contents prelude file_scope fn m)
    unfolding analyze_function_body names
    body-Adds fn m =
        block-Adds _ fn fn.body _ _ m _ (params-names fn.params _ [] m)
          (stack_names-file file_scope prelude is_prelude) (params-Adds fn.params _ [] m)

    bodies-Adds :
        (fns : List FunctionDecl) (m : SemanticModel)
        → Adds m
            (bodies_problems contents (names file_scope ++ builtin_names) fns)
            (analyze_bodies contents prelude file_scope fns m)
    unfolding bodies_problems analyze_bodies
    bodies-Adds [] m = Adds-nothing m
    bodies-Adds (fn ∷ fns) m = body-Adds fn m ⟫ bodies-Adds fns _

prelude-names : (m : SemanticModel) → names (build_prelude prelude_names [] m).0 ≡ builtin_names
unfolding build_prelude names emplace find equal
prelude-names m = refl

prelude-errors : (m : SemanticModel) → (build_prelude prelude_names [] m).1.errors ≡ m.errors
unfolding build_prelude
prelude-errors m = refl

-- For every buffer and every tree, the kinds and places of the errors that analyze reports, in
-- their order, are those that file_problems reads off the names alone: duplicate names in a
-- scope, unknown names and unknown types, with every function visible in every body, the
-- built-in names behind the functions, a local visible behind its declaration, and a block's
-- names gone behind it.
pub analyze-problems :
    (contents : Bytes) (file : SourceFile)
    → reports (analyze contents file) ≡ file_problems contents file
unfolding analyze file_problems reports names
analyze-problems contents file =
    let (top, m1) = collect_declarations contents file.declarations [] empty_model in
    let bodies =
      bodies-Adds contents (build_prelude prelude_names [] m1).0 (prelude-names m1) top
        file.declarations (build_prelude prelude_names [] m1).1 in
    let whole =
      quietly (prelude-errors m1) (heads-Adds contents file.declarations [] empty_model)
      ⟫ renamed (λ here. bodies_problems contents (here ++ builtin_names) file.declarations)
          (collect-names contents file.declarations [] empty_model) bodies in
    whole.reported
