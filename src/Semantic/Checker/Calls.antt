-- ===== src/Semantic/Checker/Calls.antt =====
-- Calls in compiler/src/semantic/TypeChecker.cpp: of functions, of built-in ones, and of values.
use kai_cc.Ast.Expr.{Expr, Exprs, Identifier, expr_span}
use kai_cc.Base.{
  ℕ, ◌==◌, Bool, true, false, not, ◌&&◌, ◌||◌, Option, none, some, List, [], ◌∷◌, Bytes, codes,
  length, if◌then◌else◌,
}
use kai_cc.Lexer.Keywords.{equal}
use kai_cc.Semantic.Checker.Literals.{Context, no_context, usable_context, unwrap_identifier}
use kai_cc.Semantic.Checker.Operators.{Checked, actual_error, mismatch, fails}
use kai_cc.Semantic.Model.{
  SemanticErrorKind, SemanticModel, SliceProvenance, add_error, plain_error, resolution, symbol,
  intern_slice,
}
use kai_cc.Semantic.Symbol.{Symbol, SymbolKind, FunctionSignature}
use kai_cc.Semantic.Types.{
  ValueType, TypeKind, simple, types_equal, is_error, is_unresolved, is_array, is_slice, is_str,
}
use kai_cc.Semantic.Updates.{array_element_type, slice_provenance_of}
use kai_cc.Source.Location.{SourceSpan}

-- The symbol that an identifier was resolved to.
unfoldable pub symbol_of : SemanticModel → Option Identifier → Option (ℕ × Symbol)
symbol_of m none = none
symbol_of m (some n) = elim (resolution m n.span) [
  | none ↦ none
  | some id ↦ elim (symbol m id) [ none ↦ none | some s ↦ some (id, s) ]
]

-- A function's symbol always has a signature.
pub data Callee : Type 0 where
  function : FunctionSignature → Callee
  slice_builtin len_builtin other_builtin value : Callee

unfoldable pub builtin_named : Bytes → Callee
builtin_named name =
    if equal name (codes "slice")
    then Callee.slice_builtin
    else (if equal name (codes "len") then Callee.len_builtin else Callee.other_builtin)

abbrev pub callee_symbol : SymbolKind → Symbol → Callee
callee_symbol SymbolKind.function s = elim s.signature [
  | some signature ↦ Callee.function signature
  | none ↦ Callee.value
]
callee_symbol SymbolKind.builtin s = builtin_named s.name
callee_symbol SymbolKind.parameter s = Callee.value
callee_symbol SymbolKind.local s = Callee.value

unfoldable pub callee_of : SemanticModel → Expr → Callee
callee_of m callee = elim (symbol_of m (unwrap_identifier callee)) [
  | some (_, s) ↦ callee_symbol s.kind s
  | none ↦ Callee.value
]

-- The parameters that the arguments are checked against: those of a function, or none.
abbrev pub callee_parameters : Callee → List ValueType
callee_parameters (Callee.function signature) = signature.parameter_types
callee_parameters _ = []

-- The types of the arguments, whether one was of a wrong type, and whether one was erroneous;
-- past the parameters neither is asked.
pub record Arguments : Type 0 where
  pub types : List ValueType
  pub has_concrete_mismatch : Bool
  pub has_argument_error : Bool
  pub model : SemanticModel

abbrev pub no_arguments : SemanticModel → Arguments
no_arguments m = record {
  types = [];
  has_concrete_mismatch = false;
  has_argument_error = false;
  model = m;
}

abbrev pub argument_context : List ValueType → Context
argument_context [] = no_context
argument_context (t ∷ ts) = (usable_context (some t), none)

unfoldable pub is_concrete_mismatch : List ValueType → ValueType → Bool
is_concrete_mismatch [] actual = false
is_concrete_mismatch (t ∷ ts) actual =
    not (is_error actual || is_unresolved actual)
    && not (is_error t || is_unresolved t)
    && not (types_equal actual t)

abbrev pub is_argument_error : List ValueType → ValueType → Bool
is_argument_error [] actual = false
is_argument_error (t ∷ ts) actual = is_error actual

unfoldable pub report_argument : List ValueType → SourceSpan → Checked → Checked
report_argument [] span (actual, m) = (actual, m)
report_argument (t ∷ ts) span (actual, m) = (
  actual,
  if is_concrete_mismatch (t ∷ ts) actual then add_error m (mismatch span none t actual) else m,
)

abbrev pub with_argument : List ValueType → ValueType → Arguments → Arguments
with_argument parameters t rest = record {
  types = t ∷ rest.types;
  has_concrete_mismatch = is_concrete_mismatch parameters t || rest.has_concrete_mismatch;
  has_argument_error = is_argument_error parameters t || rest.has_argument_error;
  model = rest.model;
}

unfoldable pub check_user_function_call : FunctionSignature → SourceSpan → Arguments → Checked
check_user_function_call signature span a =
    if not (length a.types == length signature.parameter_types)
    then fails (plain_error SemanticErrorKind.invalid_argument_count span none) a.model
    else (if a.has_concrete_mismatch || a.has_argument_error
        then (simple TypeKind.error, a.model)
        else (signature.return_type, a.model))

abbrev pub is_variable : SymbolKind → Bool
is_variable SymbolKind.local = true
is_variable SymbolKind.parameter = true
is_variable _ = false

-- A variable that holds an array.
unfoldable pub is_eligible_source : SemanticModel → Expr → ValueType → Bool
is_eligible_source m argument t = elim (symbol_of m (unwrap_identifier argument)) [
  | some (_, s) ↦ is_variable s.kind && is_array t
  | none ↦ false
]

unfoldable pub slice_argument_result : Expr → ValueType → SemanticModel → Checked
slice_argument_result argument t m =
    if is_error t
    then (simple TypeKind.error, m)
    else (if is_unresolved t
        then (simple TypeKind.unresolved, m)
        else (if is_eligible_source m argument t
            then intern_slice (array_element_type m t) m
            else fails (actual_error SemanticErrorKind.invalid_slice_source (expr_span argument) t)
                m))

unfoldable pub check_slice_builtin_call : Exprs → SourceSpan → Arguments → Checked
check_slice_builtin_call (Exprs.cons argument Exprs.nil) span a = elim a.types [
  | t ∷ _ ↦ slice_argument_result argument t a.model
  | [] ↦ (simple TypeKind.error, a.model)
]
check_slice_builtin_call _ span a =
    fails (plain_error SemanticErrorKind.invalid_argument_count span none) a.model

unfoldable pub len_argument_result : Expr → ValueType → SemanticModel → Checked
len_argument_result argument t m =
    if is_error t
    then (simple TypeKind.error, m)
    else (if is_unresolved t
        then (simple TypeKind.unresolved, m)
        else (if is_array t || is_slice t || is_str t
            then (simple TypeKind.u64, m)
            else fails (actual_error SemanticErrorKind.invalid_len_operand (expr_span argument) t)
                m))

unfoldable pub check_len_builtin_call : Exprs → SourceSpan → Arguments → Checked
check_len_builtin_call (Exprs.cons argument Exprs.nil) span a = elim a.types [
  | t ∷ _ ↦ len_argument_result argument t a.model
  | [] ↦ (simple TypeKind.error, a.model)
]
check_len_builtin_call _ span a =
    fails (plain_error SemanticErrorKind.invalid_argument_count span none) a.model

-- A call of anything but a function's name.
unfoldable pub value_call_result : SourceSpan → ValueType → SemanticModel → Checked
value_call_result callee_span t m =
    if is_error t
    then (simple TypeKind.error, m)
    else (if is_unresolved t
        then (simple TypeKind.unresolved, m)
        else fails (actual_error SemanticErrorKind.not_callable callee_span t) m)

unfoldable pub call_result :
    Callee → SourceSpan → Exprs → SourceSpan → ValueType → Arguments → Checked
call_result (Callee.function signature) callee_span es span t a =
    check_user_function_call signature span a
call_result Callee.slice_builtin callee_span es span t a = check_slice_builtin_call es span a
call_result Callee.len_builtin callee_span es span t a = check_len_builtin_call es span a
call_result Callee.other_builtin callee_span es span t a = (simple TypeKind.unresolved, a.model)
call_result Callee.value callee_span es span t a = value_call_result callee_span t a.model

abbrev pub is_slice_call : Callee → Bool
is_slice_call Callee.slice_builtin = true
is_slice_call _ = false

-- A variable's slice is from where the variable's was, and `slice(x)` is of a local array.
unfoldable pub expr_slice_provenance : SemanticModel → Expr → SliceProvenance
expr_slice_provenance m (Expr.paren inner _) = expr_slice_provenance m inner
expr_slice_provenance m (Expr.identifier n _) = elim (resolution m n.span) [
  | some id ↦ slice_provenance_of id m
  | none ↦ SliceProvenance.unknown
]
expr_slice_provenance m (Expr.call callee _ _) =
    if is_slice_call (callee_of m callee) then SliceProvenance.local else SliceProvenance.unknown
expr_slice_provenance m _ = SliceProvenance.unknown
