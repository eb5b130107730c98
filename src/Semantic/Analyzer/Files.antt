-- ===== src/Semantic/Analyzer/Files.antt =====
-- The two passes over a file, as steps from the empty model.
use kai_cc.Ast.Decl.{Param, FunctionDecl}
use kai_cc.Ast.TypeSyntax.{TypeSyntax}
use kai_cc.Base.{
  Option, none, some, List, [], ◌∷◌, Bytes, refl, arith, inl, inr, length, find, emplace,
  Every-emplace, get_elem?-last,
}
use kai_cc.Semantic.Analyzer.Declared.{
  Declares, type-Reach, type-IsKnown, duplicate-Reach, new_symbol-IsScope,
}
use kai_cc.Semantic.Analyzer.Passes.{
  resolve_params, resolve_return, resolve_function_signature, collect_function_decl,
  collect_declarations, function_symbol, builtin, build_prelude,
}
use kai_cc.Semantic.Analyzer.Preserved.{Reach-IsSound}
use kai_cc.Semantic.Analyzer.Scoped.{IsScope, IsScope-grow}
use kai_cc.Semantic.Analyzer.Scopes.{Scope, name_key, report_duplicate}
use kai_cc.Semantic.Analyzer.Steps.{
  IsKnown, AllKnown, AllKnown-grow, IsKnown-grow, IsKnownSymbol, HasName, Step, Reach, here, next,
  Reach-trans, Reach-Grows, IsSound,
}
use kai_cc.Semantic.Model.{SemanticModel, add_symbol, span_key}
use kai_cc.Semantic.Shapes.{Shape, Denotes}
use kai_cc.Semantic.Types.{ValueType, TypeKind, kind_value}
use kai_cc.Source.Text.{text}

module _ (contents : Bytes) where
  -- Types that were resolved, and the steps that they took.
  record Types (m : SemanticModel) (ts : List ValueType) (m' : SemanticModel) : Type 0 where
    reach : Reach contents m m'
    known : AllKnown m' ts

  params-Types :
      (ps : List Param) {m : SemanticModel}
      → IsSound contents m
      → Types m (resolve_params contents ps m).0 (resolve_params contents ps m).1
  unfolding resolve_params
  params-Types [] sound = record { reach = here; known = tt }
  params-Types (p ∷ ps) sound =
      let r = type-Reach contents p.type sound in
      let rest = params-Types ps (Reach-IsSound sound r) in
      record {
        reach = Reach-trans r rest.reach;
        known = (
          IsKnown-grow (Reach-Grows rest.reach) (type-IsKnown contents p.type sound),
          rest.known,
        );
      }

  return-Reach :
      (t : Option TypeSyntax) {m : SemanticModel}
      → IsSound contents m
      → Reach contents m (resolve_return contents t m).1
  unfolding resolve_return
  return-Reach none sound = here
  return-Reach (some t) sound = type-Reach contents t sound

  return-IsKnown :
      (t : Option TypeSyntax) {m : SemanticModel}
      → IsSound contents m
      → IsKnown (resolve_return contents t m).1 (resolve_return contents t m).0
  unfolding resolve_return kind_value
  return-IsKnown none sound =
      inl (Shape.plain TypeKind.unit, Denotes.plain TypeKind.unit (omega arith) refl)
  return-IsKnown (some t) sound = type-IsKnown contents t sound

  function-Declares :
      (fn : FunctionDecl) (top : Scope) {m : SemanticModel}
      → IsSound contents m
      → IsScope m top
      → Declares contents m
          (collect_function_decl contents fn top m).0
          (collect_function_decl contents fn top m).1
  unfolding collect_function_decl resolve_function_signature
  function-Declares fn top {m} sound h =
      let reported =
        duplicate-Reach contents (find (text contents fn.name.span) top) fn.name.span m in
      let sound1 = Reach-IsSound sound reported in
      let ps = params-Types fn.params sound1 in
      let sound2 = Reach-IsSound sound1 ps.reach in
      let returned = return-Reach fn.return_type sound2 in
      let whole = Reach-trans (Reach-trans reported ps.reach) returned in
      let known = return-IsKnown fn.return_type sound2 in
      let params_known = AllKnown-grow _ (Reach-Grows returned) ps.known in
      let symbol_known : IsKnownSymbol
          (resolve_return contents fn.return_type
            (resolve_params contents fn.params
              (report_duplicate (find (text contents fn.name.span) top) fn.name.span m)).1).1
          (function_symbol contents fn
            (resolve_function_signature contents fn
              (report_duplicate (find (text contents fn.name.span) top) fn.name.span m)).0) =
        record { type_known = inr (inr refl); signature_known = (params_known, known) } in
      record {
        reach = next whole (Step.declare fn.name _ refl refl symbol_known);
        is_scope =
            new_symbol-IsScope contents fn.name _ refl refl symbol_known
              (IsScope-grow (Reach-Grows whole) h);
      }

  pub collect-Declares :
      (fns : List FunctionDecl) (top : Scope) {m : SemanticModel}
      → IsSound contents m
      → IsScope m top
      → Declares contents m
          (collect_declarations contents fns top m).0
          (collect_declarations contents fns top m).1
  unfolding collect_declarations
  collect-Declares [] top sound h = record { reach = here; is_scope = h }
  collect-Declares (fn ∷ fns) top sound h =
      let d = function-Declares fn top sound h in
      let rest = collect-Declares fns _ (Reach-IsSound sound d.reach) d.is_scope in
      record { reach = Reach-trans d.reach rest.reach; is_scope = rest.is_scope }

  pub prelude-Declares :
      (names : List Bytes) (scope : Scope) {m : SemanticModel}
      → IsScope m scope
      → Declares contents m (build_prelude names scope m).0 (build_prelude names scope m).1
  unfolding build_prelude
  prelude-Declares [] scope h = record { reach = here; is_scope = h }
  prelude-Declares (name ∷ names) scope {m} h =
      let step : Step contents m (add_symbol m (builtin name)).1 = Step.prelude name in
      let r = next here step in
      let grown = (IsScope-grow (Reach-Grows r) h).named in
      let entry : HasName (add_symbol m (builtin name)).1 (length m.symbols) name = record {
        entry = builtin name;
        found = get_elem?-last m.symbols (builtin name);
        named = refl;
      } in
      let rest =
        prelude-Declares names (emplace name (length m.symbols) scope)
          (record { named = Every-emplace _ name (length m.symbols) scope entry grown }) in
      record { reach = Reach-trans r rest.reach; is_scope = rest.is_scope }
