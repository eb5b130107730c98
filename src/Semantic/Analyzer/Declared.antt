-- ===== src/Semantic/Analyzer/Declared.antt =====
-- Types that are resolved and names that are declared, as steps of the analysis.
use kai_cc.Ast.Expr.{Identifier}
use kai_cc.Ast.TypeSyntax.{TypeSyntax}
use kai_cc.Base.{
  ℕ, Bool, Option, none, some, Bytes, ◌≡◌, inl, inr, refl, ◌∙◌, arith, get_elem?-last, length, find,
  emplace, Every-emplace, Option-cases,
}
use kai_cc.Semantic.Analyzer.Bodies.{annotated_type}
use kai_cc.Semantic.Analyzer.Scoped.{IsScope, IsScope-grow}
use kai_cc.Semantic.Analyzer.Scopes.{
  Scope, name_key, report_duplicate, new_symbol, declare_in_scope,
}
use kai_cc.Semantic.Analyzer.Steps.{
  IsKnown, IsKnownSymbol, Step, Reach, here, next, Reach-Grows, IsSound, IsKnown-grow,
}
use kai_cc.Semantic.Analyzer.TypeNames.{
  array_of, slice_of, named_type, resolve_type_syntax, primitive_in, primitive_names,
}
use kai_cc.Semantic.Model.{SemanticModel, SemanticError, add_error, intern_array, intern_slice}
use kai_cc.Semantic.Shapes.Spelling.{
  Spelling, shape, failed, deferred, Means, spelled, resolve_type_syntax-Resolved,
}
use kai_cc.Semantic.Symbol.{SymbolKind, Symbol}
use kai_cc.Semantic.Types.{ValueType}
use kai_cc.Source.Location.{SourceSpan}
use kai_cc.Source.Text.{text}

-- What resolving a type leaves alone.
record SameNames (m m' : SemanticModel) : Type 0 where
  symbols : m'.symbols ≡ m.symbols
  resolutions : m'.identifier_resolutions ≡ m.identifier_resolutions
  declarations : m'.declaration_symbols ≡ m.declaration_symbols
  expressions : m'.expression_types ≡ m.expression_types

same : (m : SemanticModel) → SameNames m m
same m = record { symbols = refl; resolutions = refl; declarations = refl; expressions = refl }

intern_array-SameNames :
    (t : ValueType) (n : ℕ) (m : SemanticModel) → SameNames m (intern_array t n m).1
unfolding intern_array
intern_array-SameNames t n m = ground arith

intern_slice-SameNames : (t : ValueType) (m : SemanticModel) → SameNames m (intern_slice t m).1
unfolding intern_slice
intern_slice-SameNames t m = ground arith

array_of-SameNames :
    (l : Bytes) (t : ValueType) (m : SemanticModel) → SameNames m (array_of l t m).1
unfolding array_of
array_of-SameNames l t m = grind (arith, intern_array-SameNames)

slice_of-SameNames : (t : ValueType) (m : SemanticModel) → SameNames m (slice_of t m).1
unfolding slice_of
slice_of-SameNames t m = grind (arith, intern_slice-SameNames)

named_type-SameNames :
    (name : Bytes) (e : SemanticError) (m : SemanticModel)
    → SameNames m (named_type name (add_error m e) m).1
unfolding named_type
named_type-SameNames name e m = elim (Option-cases (primitive_in primitive_names name)) [
  | inl h ↦
      rw (h, named_type)
        (record { symbols = refl; resolutions = refl; declarations = refl; expressions = refl })
  | inr (t, h) ↦ rw (h, named_type) (same m)
]

SameNames-trans : {m m' m'' : SemanticModel} → SameNames m m' → SameNames m' m'' → SameNames m m''
SameNames-trans a b = record {
  symbols = b.symbols ∙ a.symbols;
  resolutions = b.resolutions ∙ a.resolutions;
  declarations = b.declarations ∙ a.declarations;
  expressions = b.expressions ∙ a.expressions;
}

module _ (contents : Bytes) where
  type-SameNames :
      (t : TypeSyntax) (m : SemanticModel) → SameNames m (resolve_type_syntax contents t m).1
  unfolding resolve_type_syntax
  type-SameNames (TypeSyntax.named n _) m = named_type-SameNames _ _ m
  type-SameNames (TypeSyntax.unit _) m = same m
  type-SameNames (TypeSyntax.array e _ _) m =
      SameNames-trans (type-SameNames e m) (array_of-SameNames _ _ _)
  type-SameNames (TypeSyntax.slice e _) m =
      SameNames-trans (type-SameNames e m) (slice_of-SameNames _ _)
  type-SameNames (TypeSyntax.reference _ _ _ _) m = same m
  type-SameNames (TypeSyntax.generic _ _ _) m = same m

  pub type-Reach :
      (t : TypeSyntax) {m : SemanticModel}
      → IsSound contents m
      → Reach contents m (resolve_type_syntax contents t m).1
  type-Reach t {m} sound =
      let keeps = type-SameNames t m in
      next here (
        Step.types (resolve_type_syntax-Resolved contents t m sound.is_canonical) keeps.symbols
          keeps.resolutions keeps.declarations keeps.expressions)

  Means-IsKnown : (m : SemanticModel) (t : ValueType) (p : Spelling) → Means m t p → IsKnown m t
  Means-IsKnown m t (shape s) h = inl (s, h)
  Means-IsKnown m t failed h = inr (inl h)
  Means-IsKnown m t deferred h = inr (inr h)

  pub type-IsKnown :
      (t : TypeSyntax) {m : SemanticModel}
      → IsSound contents m
      → IsKnown (resolve_type_syntax contents t m).1 (resolve_type_syntax contents t m).0
  type-IsKnown t {m} sound =
      Means-IsKnown (resolve_type_syntax contents t m).1 _ (spelled contents t)
        (resolve_type_syntax-Resolved contents t m sound.is_canonical).means

  pub annotation-Reach :
      (t : Option TypeSyntax) {m : SemanticModel}
      → IsSound contents m
      → Reach contents m (annotated_type contents t m).1
  unfolding annotated_type
  annotation-Reach none sound = here
  annotation-Reach (some t) sound = type-Reach t sound

  pub annotation-IsKnown :
      (t : Option TypeSyntax) {m : SemanticModel}
      → IsSound contents m
      → IsKnown (annotated_type contents t m).1 (annotated_type contents t m).0
  unfolding annotated_type
  annotation-IsKnown none sound = inr (inr refl)
  annotation-IsKnown (some t) sound = type-IsKnown t sound

  pub duplicate-Reach :
      (found : Option ℕ) (span : SourceSpan) (m : SemanticModel)
      → Reach contents m (report_duplicate found span m)
  unfolding report_duplicate
  duplicate-Reach none span m = here
  duplicate-Reach (some id) span m = next here (Step.error _)

  -- A symbol of that name behind the others, and a scope with it.
  pub new_symbol-IsScope :
      (n : Identifier) (s : Symbol) {m : SemanticModel} {scope : Scope}
      → s.name ≡ text contents n.span
      → s.declared_at ≡ some n.span
      → IsKnownSymbol m s
      → IsScope m scope
      → IsScope (new_symbol n s m).1 (emplace (text contents n.span) (new_symbol n s m).0 scope)
  unfolding new_symbol
  new_symbol-IsScope n s {m} {scope} named placed known h =
      let step : Step contents m (new_symbol n s m).1 = Step.declare n s named placed known in
      record {
        named =
            Every-emplace _ (text contents n.span) (length m.symbols) scope
              (record { entry = s; found = get_elem?-last m.symbols s; named = named })
              (IsScope-grow (Reach-Grows (next here step)) h).named;
      }

  -- From a model to the next, with a scope that fits it.
  pub record Declares (m : SemanticModel) (scope' : Scope) (m' : SemanticModel) : Type 0 where
    pub reach : Reach contents m m'
    pub is_scope : IsScope m' scope'

  pub declare-Declares :
      (scope : Scope) (kind : SymbolKind) (n : Identifier) (is_mutable : Bool) (t : ValueType)
      {m : SemanticModel}
      → IsScope m scope
      → IsKnown m t
      → Declares m
          (declare_in_scope contents scope kind n is_mutable t m).0
          (declare_in_scope contents scope kind n is_mutable t m).1
  unfolding declare_in_scope
  declare-Declares scope kind n is_mutable t {m} h known =
      let reported = duplicate-Reach (find (text contents n.span) scope) n.span m in
      let grows = Reach-Grows reported in
      let s : Symbol = record {
        kind = kind;
        name = text contents n.span;
        declared_at = some n.span;
        is_mutable = is_mutable;
        type = t;
        signature = none;
      } in
      let symbol_known : IsKnownSymbol
          (report_duplicate (find (text contents n.span) scope) n.span m) s =
        record { type_known = IsKnown-grow grows known; signature_known = tt } in
      record {
        reach = next reported (Step.declare n s refl refl symbol_known);
        is_scope = new_symbol-IsScope n s refl refl symbol_known (IsScope-grow grows h);
      }
