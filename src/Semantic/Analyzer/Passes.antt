-- ===== src/Semantic/Analyzer/Passes.antt =====
-- The two passes of compiler/src/semantic/SemanticAnalyzer.cpp over a file: functions first, then
-- their bodies.
use kai_cc.Ast.Decl.{Param, FunctionDecl, SourceFile}
use kai_cc.Ast.TypeSyntax.{TypeSyntax}
use kai_cc.Base.{
  ℕ, false, Option, none, some, List, [], ◌∷◌, Bytes, codes, find, emplace, get_or, drop,
}
use kai_cc.Semantic.Analyzer.Bodies.{analyze_block_contents}
use kai_cc.Semantic.Analyzer.Scopes.{
  Scope, name_key, report_duplicate, new_symbol, declare_in_scope,
}
use kai_cc.Semantic.Analyzer.TypeNames.{resolve_type_syntax}
use kai_cc.Semantic.Model.{SemanticModel, empty_model, add_symbol, declaration_symbol, symbol}
use kai_cc.Semantic.Symbol.{SymbolKind, Symbol, FunctionSignature}
use kai_cc.Semantic.Types.{ValueType, TypeKind, simple}
use kai_cc.Source.Text.{text}

-- The loop of `resolveFunctionSignature`.
unfoldable pub resolve_params : Bytes → List Param → SemanticModel → List ValueType × SemanticModel
resolve_params contents [] m = ([], m)
resolve_params contents (p ∷ ps) m =
    let (t, m1) = resolve_type_syntax contents p.type m in
    let (ts, m2) = resolve_params contents ps m1 in (t ∷ ts, m2)

-- With no annotation a function returns unit.
unfoldable pub resolve_return :
    Bytes → Option TypeSyntax → SemanticModel → ValueType × SemanticModel
resolve_return contents none m = (simple TypeKind.unit, m)
resolve_return contents (some t) m = resolve_type_syntax contents t m

unfoldable pub resolve_function_signature :
    Bytes → FunctionDecl → SemanticModel → FunctionSignature × SemanticModel
resolve_function_signature contents fn m =
    let (ts, m1) = resolve_params contents fn.params m in
    let (t, m2) = resolve_return contents fn.return_type m1 in
    (record { parameter_types = ts; return_type = t }, m2)

abbrev pub function_symbol : Bytes → FunctionDecl → FunctionSignature → Symbol
function_symbol contents fn signature = record {
  kind = SymbolKind.function;
  name = text contents fn.name.span;
  declared_at = some fn.name.span;
  is_mutable = false;
  type = simple TypeKind.unresolved;
  signature = some signature;
}

unfoldable pub collect_function_decl :
    Bytes → FunctionDecl → Scope → SemanticModel → Scope × SemanticModel
collect_function_decl contents fn top_level m =
    let name = text contents fn.name.span in
    let m1 = report_duplicate (find name top_level) fn.name.span m in
    let (signature, m2) = resolve_function_signature contents fn m1 in
    let (id, m3) = new_symbol fn.name (function_symbol contents fn signature) m2 in
    (emplace name id top_level, m3)

-- The first pass.
unfoldable pub collect_declarations :
    Bytes → List FunctionDecl → Scope → SemanticModel → Scope × SemanticModel
collect_declarations contents [] top_level m = (top_level, m)
collect_declarations contents (fn ∷ fns) top_level m =
    let (top_level', m') = collect_function_decl contents fn top_level m in
    collect_declarations contents fns top_level' m'

abbrev pub prelude_names : List Bytes
prelude_names = codes "print" ∷ codes "panic" ∷ codes "assert" ∷ codes "slice" ∷ codes "len" ∷ []

abbrev pub builtin : Bytes → Symbol
builtin name = record {
  kind = SymbolKind.builtin;
  name = name;
  declared_at = none;
  is_mutable = false;
  type = simple TypeKind.unresolved;
  signature = none;
}

-- The loop of `buildPreludeScope`.
unfoldable pub build_prelude : List Bytes → Scope → SemanticModel → Scope × SemanticModel
build_prelude [] prelude m = (prelude, m)
build_prelude (name ∷ names) prelude m =
    let (id, m') = add_symbol m (builtin name) in build_prelude names (emplace name id prelude) m'

-- The types that the first pass resolved; every declaration has them.
abbrev pub signature_types : Option FunctionSignature → List ValueType
signature_types none = []
signature_types (some signature) = signature.parameter_types

abbrev pub symbol_types : Option Symbol → List ValueType
symbol_types none = []
symbol_types (some s) = signature_types s.signature

abbrev pub declared_types : SemanticModel → Option ℕ → List ValueType
declared_types m none = []
declared_types m (some id) = symbol_types (symbol m id)

abbrev pub parameter_types_of : SemanticModel → FunctionDecl → List ValueType
parameter_types_of m fn = declared_types m (declaration_symbol m fn.name.span)

-- The loop over a function's parameters, each with its type; there are as many types.
unfoldable pub declare_params :
    Bytes → List Param → List ValueType → Scope → SemanticModel → Scope × SemanticModel
declare_params contents [] ts scope m = (scope, m)
declare_params contents (p ∷ ps) ts scope m =
    let t = get_or ts 0 (simple TypeKind.unresolved) in
    let (scope', m') = declare_in_scope contents scope SymbolKind.parameter p.name false t m in
    declare_params contents ps (drop 1 ts) scope' m'

unfoldable pub analyze_function_body :
    Bytes → Scope → Scope → FunctionDecl → SemanticModel → SemanticModel
analyze_function_body contents prelude file_scope fn m =
    let (scope, m') = declare_params contents fn.params (parameter_types_of m fn) [] m in
    (analyze_block_contents contents scope (file_scope ∷ prelude ∷ []) fn.body m').1

-- The second pass.
unfoldable pub analyze_bodies :
    Bytes → Scope → Scope → List FunctionDecl → SemanticModel → SemanticModel
analyze_bodies contents prelude file_scope [] m = m
analyze_bodies contents prelude file_scope (fn ∷ fns) m =
    analyze_bodies contents prelude file_scope fns
      (analyze_function_body contents prelude file_scope fn m)

unfoldable pub analyze : Bytes → SourceFile → SemanticModel
analyze contents file =
    let (file_scope, m1) = collect_declarations contents file.declarations [] empty_model in
    let (prelude, m2) = build_prelude prelude_names [] m1 in
    analyze_bodies contents prelude file_scope file.declarations m2
