-- ===== src/Semantic/Analyzer/Scopes.antt =====
-- Scopes of compiler/src/semantic/SemanticAnalyzer.cpp: `declareInScope` and `lookupIdentifier`.
use kai_cc.Ast.Expr.{Identifier}
use kai_cc.Base.{
  ℕ, Bool, true, Option, none, some, List, [], ◌∷◌, Bytes, ◌≡◌, ◌↔◌, arith, Key, find, emplace,
}
use kai_cc.Lexer.Keywords.{equal}
use kai_cc.Semantic.Model.{
  SemanticErrorKind, SemanticModel, plain_error, add_error, add_symbol, record_declaration, symbol,
}
use kai_cc.Semantic.Symbol.{SymbolKind, Symbol}
use kai_cc.Semantic.Types.{ValueType}
use kai_cc.Source.Location.{SourceSpan}
use kai_cc.Source.Text.{text}

pub equal_iff : (a b : Bytes) → (equal a b ≡ true) ↔ (a ≡ b)
unfolding equal
equal_iff [] [] = ground arith
equal_iff [] (y ∷ ys) = ground arith
equal_iff (x ∷ xs) [] = ground arith
equal_iff (x ∷ xs) (y ∷ ys) = ground (arith, equal_iff xs ys)

instance abbrev pub name_key : Key Bytes
name_key = record { equal = equal; equal_iff = equal_iff }

abbrev pub Scope : Type 0
Scope = List (Bytes × ℕ)

-- The enclosing scopes, the innermost first.
abbrev pub ScopeStack : Type 0
ScopeStack = List Scope

-- Where the symbol of an entry was declared.
abbrev pub declared_at : SemanticModel → ℕ → Option SourceSpan
declared_at m id = elim (symbol m id) [ none ↦ none | some s ↦ s.declared_at ]

-- A name that the scope has is an error, and keeps its first symbol.
unfoldable pub report_duplicate : Option ℕ → SourceSpan → SemanticModel → SemanticModel
report_duplicate none span m = m
report_duplicate (some original) span m =
    add_error m (plain_error SemanticErrorKind.duplicate_symbol span (declared_at m original))

-- A new symbol, recorded for the identifier that declares it.
unfoldable pub new_symbol : Identifier → Symbol → SemanticModel → ℕ × SemanticModel
new_symbol identifier s m =
    let (id, m') = add_symbol m s in (id, record_declaration m' identifier.span id)

unfoldable pub declare_in_scope :
    Bytes
    → Scope
    → SymbolKind
    → Identifier
    → Bool
    → ValueType
    → SemanticModel
    → Scope × SemanticModel
declare_in_scope contents scope kind identifier is_mutable type m =
    let name = text contents identifier.span in
    let reported = report_duplicate (find name scope) identifier.span m in
    let s : Symbol = record {
      kind = kind;
      name = name;
      declared_at = some identifier.span;
      is_mutable = is_mutable;
      type = type;
      signature = none;
    } in
    let (id, m') = new_symbol identifier s reported in (emplace name id scope, m')

unfoldable pub lookup_enclosing : Bytes → ScopeStack → Option ℕ
lookup_enclosing name [] = none
lookup_enclosing name (scope ∷ stack) =
    let outer = lookup_enclosing name stack in
    elim (find name scope) [ some id ↦ some id | none ↦ outer ]

unfoldable pub lookup_identifier : Bytes → Scope → ScopeStack → Option ℕ
lookup_identifier name scope stack = elim (find name scope) [
  | some id ↦ some id
  | none ↦ lookup_enclosing name stack
]
