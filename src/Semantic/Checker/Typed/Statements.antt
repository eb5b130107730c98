-- ===== src/Semantic/Checker/Typed/Statements.antt =====
-- The rules on statements of compiler/src/semantic/TypeChecker.cpp, and the types in a model.
use kai_cc.Ast.Expr.{Expr, Identifier}
use kai_cc.Ast.TypeSyntax.{TypeSyntax}
use kai_cc.Base.{
  ℕ, zero, suc, Bool, true, false, not, Option, none, some, some-injective, List, [], ◌∷◌, Bytes,
  ◌≡◌, inl, inr, refl, subst, arith, get_elem?, Option-cases, if◌then◌else◌,
}
use kai_cc.Semantic.Checker.Expressions.{check_expr, infer_expr}
use kai_cc.Semantic.Checker.Literals.{no_context, can_accept_numeric_context, is_concrete}
use kai_cc.Semantic.Checker.Operators.{Checked}
use kai_cc.Semantic.Checker.Statements.{
  ReturnContext, declare_type, declare_provenance, declared_type, is_mismatch, check_inferred,
  check_annotated, check_var_decl, check_condition, returned_value, report_str_return,
  report_escape, report_return, infer_value, check_return_stmt, check_integer_range_for,
  check_other_iterable,
}
use kai_cc.Semantic.Checker.Typed.Expressions.{check_expr-Keeps}
use kai_cc.Semantic.Checker.Typed.Operators.{check_matched_operands-Keeps, resolve_matched-Keeps}
use kai_cc.Semantic.Checker.Typed.Rules.{plain-Known, set-Typed}
use kai_cc.Semantic.Checker.Typed.{
  Tables, tables, Known, KnownSymbol, Typed, Wide, Wide-refl, Wide-trans, Keeps, error-Known,
  unresolved-Known,
}
use kai_cc.Semantic.Model.{SemanticModel, SemanticError, add_error, symbol, declaration_symbol}
use kai_cc.Semantic.Symbol.{Symbol}
use kai_cc.Semantic.Types.{ValueType, TypeKind, kind_value, simple, is_error, is_slice, is_integer}
use kai_cc.Semantic.Updates.{change_at, set_expression_type}
use kai_cc.Source.Location.{SourceSpan}

-- From tables on, a model with wider ones.
pub record KeepsModel (t : Tables) (m : SemanticModel) : Type 0 where
  pub wide : Wide t (tables m)
  pub is_typed : Typed m

pub same_tables : (m : SemanticModel) → Typed m → KeepsModel (tables m) m
same_tables m h = record { wide = Wide-refl (tables m); is_typed = h }

pub model-Keeps : {t : Tables} (r : Checked) → Keeps t r → KeepsModel t r.1
model-Keeps r k = record { wide = k.wide; is_typed = k.is_typed }

pub after-KeepsModel :
    {t t' : Tables} (m : SemanticModel) → Wide t t' → KeepsModel t' m → KeepsModel t m
after-KeepsModel m g k = record { wide = Wide-trans g k.wide; is_typed = k.is_typed }

if-KeepsModel :
    {t : Tables} (m n : SemanticModel) (b : Bool)
    → KeepsModel t m
    → KeepsModel t n
    → KeepsModel t (if b then m else n)
if-KeepsModel m n true k l = k
if-KeepsModel m n false k l = l

error-KeepsModel :
    {t : Tables} (m : SemanticModel) (e : SemanticError)
    → KeepsModel t m
    → KeepsModel t (add_error m e)
error-KeepsModel m e k = record { wide = k.wide; is_typed = k.is_typed }

change_at-Known :
    (t : Tables) (i : ℕ) (f : Symbol → Symbol) (symbols : List Symbol)
    → ((s : Symbol) → KnownSymbol t s → KnownSymbol t (f s))
    → ((id : ℕ) (s : Symbol) → get_elem? symbols id ≡ some s → KnownSymbol t s)
    → (id : ℕ) (s : Symbol) → get_elem? (change_at i f symbols) id ≡ some s
    → KnownSymbol t s
unfolding change_at
change_at-Known t i f [] keeps known id s e = cc e
change_at-Known t zero f (x ∷ symbols) keeps known zero s e =
    subst (KnownSymbol t) (some-injective _ _ e) (keeps x (known zero x refl))
change_at-Known t zero f (x ∷ symbols) keeps known (suc id) s e = known (suc id) s e
change_at-Known t (suc i) f (x ∷ symbols) keeps known zero s e = known zero s e
change_at-Known t (suc i) f (x ∷ symbols) keeps known (suc id) s e =
    change_at-Known t i f symbols keeps (λ j y at. known (suc j) y at) id s e

pub declare_type-Keeps :
    (id : Option ℕ) (v : ValueType) (m : SemanticModel)
    → Typed m
    → Known (tables m) v
    → KeepsModel (tables m) (declare_type id v m)
unfolding declare_type
declare_type-Keeps none v m h k = same_tables m h
declare_type-Keeps (some id) v m h k = record {
  wide = Wide-refl (tables m);
  is_typed = record {
    is_canonical = h.is_canonical;
    symbols_known =
        change_at-Known (tables m) id (λ s. record s { type = v }) m.symbols
          (λ s known. record { type_known = k; signature_known = known.signature_known })
          h.symbols_known;
    types_known = h.types_known;
  };
}

declare_provenance-Keeps :
    {t : Tables} (id : Option ℕ) (v : ValueType) (e : Expr) (m : SemanticModel)
    → KeepsModel t m
    → KeepsModel t (declare_provenance id v e m)
unfolding declare_provenance
declare_provenance-Keeps none v e m k = k
declare_provenance-Keeps (some id) v e m k =
    if-KeepsModel _ m (is_slice v) (record { wide = k.wide; is_typed = k.is_typed }) k

pub declared_type-Known :
    (m : SemanticModel) (id : Option ℕ) → Typed m → Known (tables m) (declared_type m id)
declared_type-Known m none h = unresolved-Known (tables m)
declared_type-Known m (some id) h = elim (Option-cases (symbol m id)) [
  | inl missing ↦ rw (missing, declared_type) (unresolved-Known (tables m))
  | inr (s, found) ↦ rw (found, declared_type) (h.symbols_known id s found).type_known
]

untyped-Keeps :
    {t : Tables} (span : SourceSpan) (r : Checked)
    → Keeps t r
    → Keeps t (r.0, set_expression_type span (simple TypeKind.unresolved) r.1)
untyped-Keeps span (v, m) k = record {
  wide = k.wide;
  is_typed = set-Typed span _ m k.is_typed (unresolved-Known (tables m));
  known = k.known;
}

module _ (contents : Bytes) where
  pub infer-Keeps :
      (e : Expr) (m : SemanticModel) → Typed m → Keeps (tables m) (infer_expr contents e m)
  infer-Keeps e m h = check_expr-Keeps contents e no_context m h tt

  check_inferred-Keeps :
      (id : Option ℕ) (e : Expr) (m : SemanticModel)
      → Typed m
      → KeepsModel (tables m) (check_inferred contents id e m)
  unfolding check_inferred
  check_inferred-Keeps id e m h =
      let r = infer-Keeps e m h in
      let (v, m1) = infer_expr contents e m in
      declare_provenance-Keeps id v e (declare_type id v m1)
        (after-KeepsModel _ r.wide (declare_type-Keeps id v m1 r.is_typed r.known))

  check_annotated-Keeps :
      (id : Option ℕ) (v : ValueType) (span : SourceSpan) (e : Expr) (m : SemanticModel)
      → Typed m
      → Known (tables m) v
      → KeepsModel (tables m) (check_annotated contents id v span e m)
  unfolding check_annotated
  check_annotated-Keeps id v span e m h k =
      let r = model-Keeps _ (check_expr-Keeps contents e (some v, some span) m h k) in
      let (w, m1) = check_expr contents e (some v, some span) m in
      if-KeepsModel _ _ (is_mismatch w v) (error-KeepsModel m1 _ r)
        (if-KeepsModel m1 _ (is_error w) r (declare_provenance-Keeps id v e m1 r))

  pub check_var_decl-Keeps :
      (n : Identifier) (t : Option TypeSyntax) (e : Expr) (m : SemanticModel)
      → Typed m
      → KeepsModel (tables m) (check_var_decl contents n t e m)
  unfolding check_var_decl
  check_var_decl-Keeps n none e m h = check_inferred-Keeps _ e m h
  check_var_decl-Keeps n (some syntax) e m h =
      if-KeepsModel _ _ (is_concrete (declared_type m (declaration_symbol m n.span)))
        (check_annotated-Keeps _ _ _ e m h (declared_type-Known m _ h))
        (model-Keeps _ (infer-Keeps e m h))

  pub check_condition-Keeps :
      (e : Expr) (m : SemanticModel)
      → Typed m
      → KeepsModel (tables m) (check_condition contents e m)
  unfolding check_condition kind_value
  check_condition-Keeps e m h =
      let r = model-Keeps _ (
        check_expr-Keeps contents e (some (simple TypeKind.bool), none) m h
          (plain-Known (tables m) TypeKind.bool (omega arith))) in
      if-KeepsModel _ _
        (is_mismatch (check_expr contents e (some (simple TypeKind.bool), none) m).0
          (simple TypeKind.bool))
        (error-KeepsModel _ _ r) r

  infer_value-Keeps :
      (e : Option Expr) (m : SemanticModel)
      → Typed m
      → KeepsModel (tables m) (infer_value contents e m)
  unfolding infer_value
  infer_value-Keeps none m h = same_tables m h
  infer_value-Keeps (some e) m h = model-Keeps _ (infer-Keeps e m h)

  returned_value-Keeps :
      (e : Option Expr) (context : ReturnContext) (m : SemanticModel)
      → Typed m
      → Known (tables m) context.return_type
      → KeepsModel (tables m) (returned_value contents e context m).1
  unfolding returned_value
  returned_value-Keeps none context m h k = same_tables m h
  returned_value-Keeps (some e) context m h k = model-Keeps _ (check_expr-Keeps contents e _ m h k)

  report_return-Keeps :
      {t : Tables} (e : Option Expr) (actual : ValueType) (context : ReturnContext)
      (m : SemanticModel)
      → KeepsModel t m
      → KeepsModel t (report_return contents e actual context m)
  unfolding report_return report_escape report_str_return
  report_return-Keeps none actual context m k = k
  report_return-Keeps (some e) actual context m k =
      let one = if-KeepsModel _ m _ (error-KeepsModel m _ k) k in
      if-KeepsModel _ _ _ (error-KeepsModel _ _ one) one

  pub check_return_stmt-Keeps :
      (e : Option Expr) (span : SourceSpan) (context : ReturnContext) (m : SemanticModel)
      → Typed m
      → Known (tables m) context.return_type
      → KeepsModel (tables m) (check_return_stmt contents e span context m)
  unfolding check_return_stmt
  check_return_stmt-Keeps e span context m h k =
      let r = returned_value-Keeps e context m h k in
      let (actual, m1) = returned_value contents e context m in
      if-KeepsModel _ _ (not (is_concrete context.return_type)) (infer_value-Keeps e m h) (
        if-KeepsModel _ _ (is_mismatch actual context.return_type) (error-KeepsModel m1 _ r)
          (report_return-Keeps e actual context m1 r))

  pub range-Keeps :
      (operator : SourceSpan) (left right : Expr) (span : SourceSpan) (m : SemanticModel)
      → Typed m
      → Keeps (tables m) (check_integer_range_for contents operator left right span m)
  unfolding check_integer_range_for
  range-Keeps operator left right span m h =
      let two =
        check_matched_operands-Keeps (can_accept_numeric_context left)
          (λ c n. check_expr contents left c n) (can_accept_numeric_context right)
          (λ c n. check_expr contents right c n) no_context m
          (λ c n i j. check_expr-Keeps contents left c n i j)
          (λ c n i j. check_expr-Keeps contents right c n i j) h tt in
      untyped-Keeps span _ (resolve_matched-Keeps operator is_integer true _ two)

  pub other-Keeps :
      (e : Expr) (m : SemanticModel)
      → Typed m
      → Keeps (tables m) (check_other_iterable contents e m)
  unfolding check_other_iterable
  other-Keeps e m h =
      let r = infer-Keeps e m h in
      record { wide = r.wide; is_typed = r.is_typed; known = error-Known _ }
