-- ===== src/Semantic/Shapes/Spelling.antt =====
-- What a written type stands for, and what `resolveTypeSyntax` makes of it.
use kai_cc.Ast.Expr.{expr_span}
use kai_cc.Ast.TypeSyntax.{TypeSyntax}
use kai_cc.Base.{
  ℕ, false, Option, none, some, List, [], ◌∷◌, Bytes, ◌≡◌, ◌⊎◌, inl, inr, refl, arith, Bool-cases,
  Option-cases, if◌then◌else◌,
}
use kai_cc.Lexer.Keywords.{equal}
use kai_cc.Semantic.Analyzer.TypeNames.{
  decode_array_length, primitive_in, primitive_names, array_of, slice_of, named_type,
  resolve_type_syntax,
}
use kai_cc.Semantic.Model.{ArrayTypeInfo, SliceTypeInfo, SemanticError, SemanticModel, add_error}
use kai_cc.Semantic.Shapes.Tables.{
  Grows, Grows-refl, Grows-trans, intern_array-Interned, intern_slice-Interned,
}
use kai_cc.Semantic.Shapes.{Shape, IsPlain, Denotes, IsCanonical}
use kai_cc.Semantic.Types.{ValueType, TypeKind, kind_value, simple, is_error, is_unresolved}
use kai_cc.Source.Text.{text}

-- A structure, a mistake that was reported or a length past 64 bits, or a form that is deferred.
pub data Spelling : Type 0 where
  shape : Shape → Spelling
  failed deferred : Spelling

unfoldable pub kind_named : List (Bytes × TypeKind) → Bytes → Spelling
kind_named [] name = failed
kind_named ((spelling, kind) ∷ table) name =
    if equal name spelling then shape (Shape.plain kind) else kind_named table name

abbrev pub array_spelling : Option ℕ → Spelling → Spelling
array_spelling none (shape s) = failed
array_spelling (some n) (shape s) = shape (Shape.array s n)
array_spelling length failed = failed
array_spelling length deferred = deferred

abbrev pub slice_spelling : Spelling → Spelling
slice_spelling (shape s) = shape (Shape.slice s)
slice_spelling failed = failed
slice_spelling deferred = deferred

unfoldable pub spelled : Bytes → TypeSyntax → Spelling
spelled contents (TypeSyntax.named n _) = kind_named primitive_names (text contents n.span)
spelled contents (TypeSyntax.unit _) = shape (Shape.plain TypeKind.unit)
spelled contents (TypeSyntax.array e l _) =
    array_spelling (decode_array_length (text contents (expr_span l))) (spelled contents e)
spelled contents (TypeSyntax.slice e _) = slice_spelling (spelled contents e)
spelled contents (TypeSyntax.reference _ _ _ _) = deferred
spelled contents (TypeSyntax.generic _ _ _) = deferred

-- The type that stands for a spelling.
abbrev pub Means : SemanticModel → ValueType → Spelling → Type 0
Means m t (shape s) = Denotes m.array_types m.slice_types t s
Means m t failed = t ≡ simple TypeKind.error
Means m t deferred = t ≡ simple TypeKind.unresolved

-- The model grew and is canonical, and in it the type means what is spelled.
pub record Resolved (m m' : SemanticModel) (t : ValueType) (p : Spelling) : Type 0 where
  pub grows : Grows m m'
  pub is_canonical : IsCanonical m'.array_types m'.slice_types
  pub means : Means m' t p

plain-value :
    (k : TypeKind) → IsPlain k → (is_error (simple k) ≡ false) × (is_unresolved (simple k) ≡ false)
unfolding is_error is_unresolved kind_value
plain-value k (lo, hi) = ground arith

-- A type with a structure is neither erroneous nor unresolved.
Denotes-value :
    {arrays : List ArrayTypeInfo} {slices : List SliceTypeInfo} {t : ValueType} {s : Shape}
    → Denotes arrays slices t s
    → (is_error t ≡ false) × (is_unresolved t ≡ false)
unfolding is_error is_unresolved kind_value
Denotes-value (Denotes.plain k p e) = rw e (plain-value k p)
Denotes-value (Denotes.array _ f _ _ _) = rw f (refl, refl)
Denotes-value (Denotes.slice _ f _ _) = rw f (refl, refl)

abbrev AllPlain : List (Bytes × TypeKind) → Type 0
AllPlain [] = Unit
AllPlain ((_, kind) ∷ table) = IsPlain kind × AllPlain table

primitive_names-AllPlain : AllPlain primitive_names
unfolding kind_value
primitive_names-AllPlain = omega arith

kind_named_cases :
    (table : List (Bytes × TypeKind)) (name : Bytes)
    → AllPlain table
    → ((k : TypeKind) × IsPlain k
        × (primitive_in table name ≡ some (simple k))
        × (kind_named table name ≡ shape (Shape.plain k)))
      ⊎ ((primitive_in table name ≡ none) × (kind_named table name ≡ failed))
unfolding primitive_in kind_named
kind_named_cases [] name h = inr (refl, refl)
kind_named_cases ((spelling, kind) ∷ table) name h = elim (Bool-cases (equal name spelling)) [
  | inl e ↦ inl (kind, h.0, rw e refl, rw e refl)
  | inr e ↦ rw e (kind_named_cases table name h.1)
]

module _ {m : SemanticModel} (c : IsCanonical m.array_types m.slice_types) where
  unchanged : {t : ValueType} {p : Spelling} → Means m t p → Resolved m m t p
  unchanged h = record { grows = Grows-refl m; is_canonical = c; means = h }

  named_type-Resolved :
      (name : Bytes) (e : SemanticError)
      → Resolved m
          (named_type name (add_error m e) m).1
          (named_type name (add_error m e) m).0
          (kind_named primitive_names name)
  unfolding named_type
  named_type-Resolved name e =
      elim (kind_named_cases primitive_names name primitive_names-AllPlain) [
        | inl (k, plain, found, spelling) ↦
            rw (found, spelling, named_type) (unchanged (Denotes.plain k plain refl))
        | inr (missing, spelling) ↦
            rw (missing, spelling, named_type)
              (record {
                grows = record {
                  symbols_stay = λ i x e. e;
                  arrays_stay = λ i x e. e;
                  slices_stay = λ i x e. e;
                };
                is_canonical = c;
                means = refl;
              })
      ]

  array_of-Resolved :
      (length_text : Bytes) (t : ValueType) (p : Spelling)
      → Means m t p
      → Resolved m
          (array_of length_text t m).1
          (array_of length_text t m).0
          (array_spelling (decode_array_length length_text) p)
  unfolding array_of is_error is_unresolved kind_value
  array_of-Resolved length_text t failed h = rw h (unchanged refl)
  array_of-Resolved length_text t deferred h = rw h (unchanged refl)
  array_of-Resolved length_text t (shape s) h =
      let (good, resolved) = Denotes-value h in
      elim (Option-cases (decode_array_length length_text)) [
        | inl e ↦ rw (good, resolved, e, array_of) (unchanged refl)
        | inr (n, e) ↦
            let done = intern_array-Interned m c t s h n in
            rw (good, resolved, e, array_of)
              (record {
                grows = done.grows;
                is_canonical = done.is_canonical;
                means = done.denotes;
              })
      ]

  slice_of-Resolved :
      (t : ValueType) (p : Spelling)
      → Means m t p
      → Resolved m (slice_of t m).1 (slice_of t m).0 (slice_spelling p)
  unfolding slice_of is_error is_unresolved kind_value
  slice_of-Resolved t failed h = rw h (unchanged refl)
  slice_of-Resolved t deferred h = rw h (unchanged refl)
  slice_of-Resolved t (shape s) h =
      let (good, resolved) = Denotes-value h in
      let done = intern_slice-Interned m c t s h in
      rw (good, resolved)
        (record { grows = done.grows; is_canonical = done.is_canonical; means = done.denotes })

Resolved-trans :
    {m m' m'' : SemanticModel} {t u : ValueType} {p q : Spelling}
    → Resolved m m' t p
    → Resolved m' m'' u q
    → Resolved m m'' u q
Resolved-trans r q = record {
  grows = Grows-trans r.grows q.grows;
  is_canonical = q.is_canonical;
  means = q.means;
}

-- Where the tables of a model are canonical, resolve_type_syntax takes any written type to the
-- type that it spells, an error or a deferred type included: the new tables extend the old
-- ones, are canonical, and the result denotes in them the structure that is written.
pub resolve_type_syntax-Resolved :
    (contents : Bytes) (syntax : TypeSyntax) (m : SemanticModel)
    → IsCanonical m.array_types m.slice_types
    → Resolved m
        (resolve_type_syntax contents syntax m).1
        (resolve_type_syntax contents syntax m).0
        (spelled contents syntax)
unfolding resolve_type_syntax spelled kind_value
resolve_type_syntax-Resolved contents (TypeSyntax.named n _) m c = named_type-Resolved c _ _
resolve_type_syntax-Resolved contents (TypeSyntax.unit _) m c =
    unchanged c (Denotes.plain TypeKind.unit (omega arith) refl)
resolve_type_syntax-Resolved contents (TypeSyntax.array e l _) m c =
    let r = resolve_type_syntax-Resolved contents e m c in
    Resolved-trans r (array_of-Resolved r.is_canonical _ _ (spelled contents e) r.means)
resolve_type_syntax-Resolved contents (TypeSyntax.slice e _) m c =
    let r = resolve_type_syntax-Resolved contents e m c in
    Resolved-trans r (slice_of-Resolved r.is_canonical _ (spelled contents e) r.means)
resolve_type_syntax-Resolved contents (TypeSyntax.reference _ _ _ _) m c = unchanged c refl
resolve_type_syntax-Resolved contents (TypeSyntax.generic _ _ _) m c = unchanged c refl
