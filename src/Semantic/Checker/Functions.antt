-- ===== src/Semantic/Checker/Functions.antt =====
-- Functions and files in compiler/src/semantic/TypeChecker.cpp.
use kai_cc.Ast.Decl.{Param, FunctionDecl, SourceFile}
use kai_cc.Ast.TypeSyntax.{TypeSyntax, type_span}
use kai_cc.Base.{ℕ, suc, Option, none, some, List, [], ◌∷◌, Bytes, if◌then◌else◌}
use kai_cc.Semantic.Analyzer.Passes.{parameter_types_of}
use kai_cc.Semantic.Checker.Statements.{ReturnContext, declared_type, check_block}
use kai_cc.Semantic.Model.{SemanticModel, SliceProvenance, declaration_symbol, symbol}
use kai_cc.Semantic.Symbol.{Symbol, FunctionSignature}
use kai_cc.Semantic.Types.{ValueType, TypeKind, simple, is_slice, is_str}
use kai_cc.Semantic.Updates.{set_slice_provenance}
use kai_cc.Source.Location.{SourceSpan}

unfoldable pub str_count : List ValueType → ℕ
str_count [] = 0
str_count (t ∷ ts) = let n = str_count ts in if is_str t then suc n else n

-- The declared return type; every function's name has a symbol with a signature.
abbrev pub signature_return : Option FunctionSignature → ValueType
signature_return none = simple TypeKind.unresolved
signature_return (some signature) = signature.return_type

abbrev pub symbol_return : Option Symbol → ValueType
symbol_return none = simple TypeKind.unresolved
symbol_return (some s) = signature_return s.signature

abbrev pub declared_return : SemanticModel → Option ℕ → ValueType
declared_return m none = simple TypeKind.unresolved
declared_return m (some id) = symbol_return (symbol m id)

abbrev pub annotation_of : Option TypeSyntax → Option SourceSpan
annotation_of none = none
annotation_of (some t) = some (type_span t)

unfoldable pub return_context : FunctionDecl → SemanticModel → ReturnContext
return_context fn m = record {
  return_type = declared_return m (declaration_symbol m fn.name.span);
  annotation_span = annotation_of fn.return_type;
  str_parameter_count = str_count (parameter_types_of m fn);
}

unfoldable pub seed_parameter : Option ℕ → SemanticModel → SemanticModel
seed_parameter none m = m
seed_parameter (some id) m =
    if is_slice (declared_type m (some id))
    then set_slice_provenance id SliceProvenance.external m
    else m

-- A slice that a caller gave is from outside.
unfoldable pub seed_parameters : List Param → SemanticModel → SemanticModel
seed_parameters [] m = m
seed_parameters (p ∷ ps) m =
    seed_parameters ps (seed_parameter (declaration_symbol m p.name.span) m)

unfoldable pub check_function_body : Bytes → FunctionDecl → SemanticModel → SemanticModel
check_function_body contents fn m =
    check_block contents (return_context fn m) fn.body (seed_parameters fn.params m)

unfoldable pub check_functions : Bytes → List FunctionDecl → SemanticModel → SemanticModel
check_functions contents [] m = m
check_functions contents (fn ∷ fns) m =
    check_functions contents fns (check_function_body contents fn m)

unfoldable pub check_types : Bytes → SourceFile → SemanticModel → SemanticModel
check_types contents file m = check_functions contents file.declarations m
