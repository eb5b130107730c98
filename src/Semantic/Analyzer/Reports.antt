-- ===== src/Semantic/Analyzer/Reports.antt =====
-- What the analyzer reports, in the terms of Problems: types and declared names.
use mathlib.Core.List.{map, map-append}
use kai_cc.Ast.Expr.{Identifier}
use kai_cc.Ast.TypeSyntax.{TypeSyntax}
use kai_cc.Base.{
  ℕ, true, false, Option, none, some, List, [], ◌∷◌, ◌++◌, append_assoc, append-nil, Bytes, ◌≡◌,
  ◌⊎◌, inl, inr, refl, sym, subst, ap, ◌∙◌, arith, Bool-cases,
}
use kai_cc.Lexer.Keywords.{equal}
use kai_cc.Semantic.Analyzer.Bodies.{annotated_type}
use kai_cc.Semantic.Analyzer.Problems.{Problem, is_primitive, type_problems, annotation_problems}
use kai_cc.Semantic.Analyzer.Scopes.{name_key}
use kai_cc.Semantic.Analyzer.TypeNames.{
  primitive_in, primitive_names, array_of, slice_of, named_type, resolve_type_syntax,
}
use kai_cc.Semantic.Model.{SemanticError, SemanticModel, add_error, intern_array, intern_slice}
use kai_cc.Semantic.Types.{TypeKind, ValueType, simple}
use kai_cc.Source.Text.{text}

abbrev pub report_of : SemanticError → Problem
report_of e = (e.kind, e.primary_span)

-- The errors of a model, as kinds and places.
unfoldable pub reports : SemanticModel → List Problem
reports m = map report_of m.errors

-- From one model to the next just these problems were reported.
pub record Adds (m : SemanticModel) (ps : List Problem) (m' : SemanticModel) : Type 0 where
  pub reported : reports m' ≡ reports m ++ ps

pub Adds-nothing : (m : SemanticModel) → Adds m [] m
Adds-nothing m = record { reported = sym (append-nil (reports m)) }

infixl 4 ◌⟫◌
pub ◌⟫◌ :
    {m m' m'' : SemanticModel} {ps qs : List Problem}
    → Adds m ps m'
    → Adds m' qs m''
    → Adds m (ps ++ qs) m''
◌⟫◌ {m} {ps} {qs} a b = record {
  reported = b.reported ∙ ap (λ r. r ++ qs) a.reported ∙ append_assoc (reports m) ps qs;
}

pub Adds-error : (m : SemanticModel) (e : SemanticError) → Adds m (report_of e ∷ []) (add_error m e)
unfolding reports
Adds-error m e = record { reported = map-append report_of m.errors (e ∷ []) }

-- What keeps the errors reports nothing more.
pub quietly :
    {m m' m'' : SemanticModel} {ps : List Problem}
    → m''.errors ≡ m'.errors
    → Adds m ps m'
    → Adds m ps m''
unfolding reports
quietly e a = record { reported = ap (map report_of) e ∙ a.reported }

-- Names that are equal have the same problems.
pub renamed :
    (problems : List Bytes → List Problem) {here here' : List Bytes} {m m' : SemanticModel}
    → here ≡ here'
    → Adds m (problems here) m'
    → Adds m (problems here') m'
renamed problems {m} {m'} e a = subst (λ names. Adds m (problems names) m') e a

intern_array-errors :
    (t : ValueType) (n : ℕ) (m : SemanticModel) → (intern_array t n m).1.errors ≡ m.errors
unfolding intern_array
intern_array-errors t n m = ground arith

intern_slice-errors : (t : ValueType) (m : SemanticModel) → (intern_slice t m).1.errors ≡ m.errors
unfolding intern_slice
intern_slice-errors t m = ground arith

array_of-errors :
    (length_text : Bytes) (t : ValueType) (m : SemanticModel)
    → (array_of length_text t m).1.errors ≡ m.errors
unfolding array_of
array_of-errors length_text t m = grind (arith, intern_array-errors)

slice_of-errors : (t : ValueType) (m : SemanticModel) → (slice_of t m).1.errors ≡ m.errors
unfolding slice_of
slice_of-errors t m = grind (arith, intern_slice-errors)

primitive_cases :
    (table : List (Bytes × TypeKind)) (name : Bytes)
    → ((t : ValueType) × (primitive_in table name ≡ some t) × (is_primitive table name ≡ true))
      ⊎ ((primitive_in table name ≡ none) × (is_primitive table name ≡ false))
unfolding primitive_in is_primitive
primitive_cases [] name = inr (refl, refl)
primitive_cases ((spelling, kind) ∷ table) name = elim (Bool-cases (equal name spelling)) [
  | inl e ↦ inl (simple kind, rw e, rw e)
  | inr e ↦ rw e (primitive_cases table name)
]

module _ (contents : Bytes) where
  named-Adds :
      (n : Identifier) (m : SemanticModel)
      → Adds m
          (type_problems contents (TypeSyntax.named n n.span))
          (resolve_type_syntax contents (TypeSyntax.named n n.span) m).1
  unfolding resolve_type_syntax type_problems named_type is_primitive
  named-Adds n m = elim (primitive_cases primitive_names (text contents n.span)) [
    | inl (t, e, f) ↦ rw (e, f, named_type) (Adds-nothing m)
    | inr (e, f) ↦ rw (e, f, named_type) (Adds-error m _)
  ]

  pub type-Adds :
      (t : TypeSyntax) (m : SemanticModel)
      → Adds m (type_problems contents t) (resolve_type_syntax contents t m).1
  unfolding resolve_type_syntax type_problems
  type-Adds (TypeSyntax.named n _) m = named-Adds n m
  type-Adds (TypeSyntax.unit _) m = Adds-nothing m
  type-Adds (TypeSyntax.array e l _) m = quietly (array_of-errors _ _ _) (type-Adds e m)
  type-Adds (TypeSyntax.slice e _) m = quietly (slice_of-errors _ _) (type-Adds e m)
  type-Adds (TypeSyntax.reference _ _ _ _) m = Adds-nothing m
  type-Adds (TypeSyntax.generic _ _ _) m = Adds-nothing m

  pub annotation-Adds :
      (t : Option TypeSyntax) (m : SemanticModel)
      → Adds m (annotation_problems contents t) (annotated_type contents t m).1
  unfolding annotated_type
  annotation-Adds none m = Adds-nothing m
  annotation-Adds (some t) m = type-Adds t m
