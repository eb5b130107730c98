-- ===== src/Semantic/Analyzer/Run.antt =====
-- A whole run of the analyzer, as steps from the empty model.
use kai_cc.Ast.Decl.{Param, FunctionDecl, SourceFile}
use kai_cc.Ast.Stmt.{BlockStmt, block_stmt}
use kai_cc.Base.{ℕ, Option, none, some, List, [], ◌∷◌, Bytes, ◌≡◌, refl, inr, get_or, drop}
use kai_cc.Semantic.Analyzer.Bodies.{analyze_block_contents}
use kai_cc.Semantic.Analyzer.Declared.{Declares, declare-Declares}
use kai_cc.Semantic.Analyzer.Files.{collect-Declares, prelude-Declares}
use kai_cc.Semantic.Analyzer.Passes.{
  collect_declarations, prelude_names, build_prelude, signature_types, symbol_types, declared_types,
  parameter_types_of, declare_params, analyze_function_body, analyze_bodies, analyze,
}
use kai_cc.Semantic.Analyzer.Preserved.{Reach-IsSound, empty_model-IsSound}
use kai_cc.Semantic.Analyzer.Scoped.{IsScope, IsScope-grow, Stands, empty-IsScope}
use kai_cc.Semantic.Analyzer.Scopes.{Scope}
use kai_cc.Semantic.Analyzer.Sound.{statements-Declares}
use kai_cc.Semantic.Analyzer.Steps.{
  IsKnown, AllKnown, AllKnown-grow, HasKnownSignature, IsKnownSymbol, Reach, here, Reach-trans,
  Reach-Grows, IsSound,
}
use kai_cc.Semantic.Model.{SemanticModel, empty_model, declaration_symbol, symbol}
use kai_cc.Semantic.Symbol.{Symbol, SymbolKind, FunctionSignature}
use kai_cc.Semantic.Types.{ValueType, TypeKind, simple}

first-IsKnown :
    (m : SemanticModel) (ts : List ValueType)
    → AllKnown m ts
    → IsKnown m (get_or ts 0 (simple TypeKind.unresolved))
first-IsKnown m [] h = inr (inr refl)
first-IsKnown m (t ∷ ts) h = h.0

rest-AllKnown : (m : SemanticModel) (ts : List ValueType) → AllKnown m ts → AllKnown m (drop 1 ts)
rest-AllKnown m [] h = tt
rest-AllKnown m (t ∷ ts) h = h.1

signature-AllKnown :
    (m : SemanticModel) (f : Option FunctionSignature)
    → HasKnownSignature m f
    → AllKnown m (signature_types f)
signature-AllKnown m none h = tt
signature-AllKnown m (some f) h = h.0

symbol-AllKnown :
    (m : SemanticModel) (found : Option Symbol)
    → ((s : Symbol) → found ≡ some s → IsKnownSymbol m s)
    → AllKnown m (symbol_types found)
symbol-AllKnown m none h = tt
symbol-AllKnown m (some s) h = signature-AllKnown m s.signature (h s refl).signature_known

module _ (contents : Bytes) where
  declared-AllKnown :
      (m : SemanticModel) (declared : Option ℕ)
      → IsSound contents m
      → AllKnown m (declared_types m declared)
  declared-AllKnown m none sound = tt
  declared-AllKnown m (some id) sound = symbol-AllKnown m (symbol m id) (sound.symbols_known id)

  params-Declares :
      (ps : List Param) (ts : List ValueType) (scope : Scope) {m : SemanticModel}
      → AllKnown m ts
      → IsScope m scope
      → Declares contents m
          (declare_params contents ps ts scope m).0
          (declare_params contents ps ts scope m).1
  unfolding declare_params
  params-Declares [] ts scope known h = record { reach = here; is_scope = h }
  params-Declares (p ∷ ps) ts scope {m} known h =
      let d =
        declare-Declares contents scope SymbolKind.parameter p.name _ _ h
          (first-IsKnown m ts known) in
      let known' = AllKnown-grow (drop 1 ts) (Reach-Grows d.reach) (rest-AllKnown m ts known) in
      let rest = params-Declares ps (drop 1 ts) _ known' d.is_scope in
      record { reach = Reach-trans d.reach rest.reach; is_scope = rest.is_scope }

  contents-Reach :
      (b : BlockStmt) {m : SemanticModel} {scope prelude file_scope : Scope}
      → Stands contents m scope (file_scope ∷ prelude ∷ [])
      → Reach contents m (analyze_block_contents contents scope (file_scope ∷ prelude ∷ []) b m).1
  unfolding analyze_block_contents
  contents-Reach (block_stmt ts _) s = (statements-Declares ts s).reach

  -- The scopes of the two passes.
  record Ready (m : SemanticModel) (prelude file_scope : Scope) : Type 0 where
    sound : IsSound contents m
    prelude_fits : IsScope m prelude
    file_fits : IsScope m file_scope

  Ready-after :
      {m m' : SemanticModel} {prelude file_scope : Scope}
      → Ready m prelude file_scope
      → Reach contents m m'
      → Ready m' prelude file_scope
  Ready-after h r = record {
    sound = Reach-IsSound h.sound r;
    prelude_fits = IsScope-grow (Reach-Grows r) h.prelude_fits;
    file_fits = IsScope-grow (Reach-Grows r) h.file_fits;
  }

  function-Reach :
      (fn : FunctionDecl) {m : SemanticModel} {prelude file_scope : Scope}
      → Ready m prelude file_scope
      → Reach contents m (analyze_function_body contents prelude file_scope fn m)
  unfolding analyze_function_body
  function-Reach fn {m} h =
      let d =
        params-Declares fn.params (parameter_types_of m fn) []
          (declared-AllKnown m (declaration_symbol m fn.name.span) h.sound) (empty-IsScope m) in
      let h' = Ready-after h d.reach in
      Reach-trans d.reach (
        contents-Reach fn.body (record {
          sound = h'.sound;
          is_scope = d.is_scope;
          are_scopes = (h'.file_fits, (h'.prelude_fits, tt));
        }))

  bodies-Reach :
      (fns : List FunctionDecl) {m : SemanticModel} {prelude file_scope : Scope}
      → Ready m prelude file_scope
      → Reach contents m (analyze_bodies contents prelude file_scope fns m)
  unfolding analyze_bodies
  bodies-Reach [] h = here
  bodies-Reach (fn ∷ fns) h =
      let r = function-Reach fn h in Reach-trans r (bodies-Reach fns (Ready-after h r))

  pub analyze-Reach : (file : SourceFile) → Reach contents empty_model (analyze contents file)
  unfolding analyze
  analyze-Reach file =
      let sound0 = empty_model-IsSound contents in
      let d = collect-Declares contents file.declarations [] sound0 (empty-IsScope empty_model) in
      let p = prelude-Declares contents prelude_names [] (empty-IsScope _) in
      let sound1 = Reach-IsSound sound0 d.reach in
      let ready : Ready
          (build_prelude prelude_names []
            (collect_declarations contents file.declarations [] empty_model).1).1
          (build_prelude prelude_names []
            (collect_declarations contents file.declarations [] empty_model).1).0
          (collect_declarations contents file.declarations [] empty_model).0 =
        record {
          sound = Reach-IsSound sound1 p.reach;
          prelude_fits = p.is_scope;
          file_fits = IsScope-grow (Reach-Grows p.reach) d.is_scope;
        } in
      Reach-trans (Reach-trans d.reach p.reach) (bodies-Reach file.declarations ready)

-- For every buffer and every tree, the model that analyze builds is sound: every resolution
-- goes to a symbol of the name at its place, every declaration to a symbol of its own name and
-- place, every type in a symbol or its signature has a structure or is erroneous or
-- unresolved, and no array or slice stands twice in the tables.
pub analyze-IsSound :
    (contents : Bytes) (file : SourceFile) → IsSound contents (analyze contents file)
analyze-IsSound contents file =
    Reach-IsSound (empty_model-IsSound contents) (analyze-Reach contents file)
