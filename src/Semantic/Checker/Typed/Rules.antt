-- ===== src/Semantic/Checker/Typed/Rules.antt =====
-- Results, errors, interning and literals of compiler/src/semantic/TypeChecker.cpp, and the types
-- in a model.
use kai_cc.Ast.Expr.{LiteralKind}
use kai_cc.Base.{
  ℕ, Bool, true, false, ◌||◌, Option, none, some, Bytes, ◌≡◌, inl, inr, refl, arith, if◌then◌else◌,
  insert_or_assign,
}
use kai_cc.Semantic.Checker.Literals.{
  Context, typed, usable_context, literal_target, check_integer_literal_value, magnitude_fits,
  decode_integer_magnitude, float_literal_type, literal_type, check_literal_expr,
}
use kai_cc.Semantic.Checker.Operators.{Checked, fails}
use kai_cc.Semantic.Checker.Typed.{
  Tables, tables, Concrete, Known, KnownOption, Typed, Wide, Wide-refl, Wide-trans, IsTyped-Wide,
  Keeps, error-Known, unresolved-Known,
}
use kai_cc.Semantic.Model.{SemanticModel, SemanticError, intern_array, intern_slice, span_key}
use kai_cc.Semantic.Shapes.Tables.{intern_array-Interned, intern_slice-Interned}
use kai_cc.Semantic.Shapes.{Shape, Denotes, IsPlain}
use kai_cc.Semantic.Types.{
  ValueType, TypeKind, kind_value, simple, is_error, is_unresolved, is_array, is_slice, is_integer,
  is_float,
}
use kai_cc.Semantic.Updates.{set_expression_type, array_element_type, slice_element_type}
use kai_cc.Source.Location.{SourceSpan}

pub keep :
    (v : ValueType) (m : SemanticModel) → Typed m → Known (tables m) v → Keeps (tables m) (v, m)
keep v m h k = record { wide = Wide-refl (tables m); is_typed = h; known = k }

pub plain-Known : (t : Tables) (k : TypeKind) → IsPlain k → Known t (simple k)
plain-Known t k p = inl (Shape.plain k, Denotes.plain k p refl)

pub keep_error : (m : SemanticModel) → Typed m → Keeps (tables m) (simple TypeKind.error, m)
keep_error m h = keep _ m h (error-Known (tables m))

pub keep_unresolved :
    (m : SemanticModel) → Typed m → Keeps (tables m) (simple TypeKind.unresolved, m)
keep_unresolved m h = keep _ m h (unresolved-Known (tables m))

pub fails-Keeps : (e : SemanticError) (m : SemanticModel) → Typed m → Keeps (tables m) (fails e m)
fails-Keeps e m h = record {
  wide = Wide-refl (tables m);
  is_typed = h;
  known = error-Known (tables m);
}

pub if-Keeps :
    {t : Tables} {x y : Checked} (b : Bool)
    → (b ≡ true → Keeps t x)
    → (b ≡ false → Keeps t y)
    → Keeps t (if b then x else y)
if-Keeps true f g = f refl
if-Keeps false f g = g refl

-- Behind other steps.
pub after-Keeps : {t t' : Tables} {r : Checked} → Wide t t' → Keeps t' r → Keeps t r
after-Keeps g k = record { wide = Wide-trans g k.wide; is_typed = k.is_typed; known = k.known }

pub set-Typed :
    (span : SourceSpan) (v : ValueType) (m : SemanticModel)
    → Typed m
    → Known (tables m) v
    → Typed (set_expression_type span v m)
unfolding insert_or_assign
set-Typed span v m h k = record {
  is_canonical = h.is_canonical;
  symbols_known = h.symbols_known;
  types_known = (k, h.types_known);
}

pub typed-Keeps :
    {t : Tables} (span : SourceSpan) (r : Checked) → Keeps t r → Keeps t (typed span r)
typed-Keeps span (v, m) k = record {
  wide = k.wide;
  is_typed = set-Typed span v m k.is_typed k.known;
  known = k.known;
}

intern_array-rest :
    (v : ValueType) (n : ℕ) (m : SemanticModel)
    → ((intern_array v n m).1.symbols ≡ m.symbols)
      × ((intern_array v n m).1.expression_types ≡ m.expression_types)
unfolding intern_array
intern_array-rest v n m = ground arith

intern_slice-rest :
    (v : ValueType) (m : SemanticModel)
    → ((intern_slice v m).1.symbols ≡ m.symbols)
      × ((intern_slice v m).1.expression_types ≡ m.expression_types)
unfolding intern_slice
intern_slice-rest v m = ground arith

pub intern_array-Keeps :
    (v : ValueType) (n : ℕ) (m : SemanticModel)
    → Typed m
    → Concrete (tables m) v
    → Keeps (tables m) (intern_array v n m)
intern_array-Keeps v n m h (s, d) =
    let i = intern_array-Interned m h.is_canonical v s d n in
    let g : Wide (tables m) (tables (intern_array v n m).1) = record {
      arrays_stay = i.grows.arrays_stay;
      slices_stay = i.grows.slices_stay;
    } in
    let (symbols, types) = intern_array-rest v n m in
    record {
      wide = g;
      is_typed = rw (symbols, types) (IsTyped-Wide g i.is_canonical h);
      known = inl (Shape.array s n, i.denotes);
    }

pub intern_slice-Keeps :
    (v : ValueType) (m : SemanticModel)
    → Typed m
    → Concrete (tables m) v
    → Keeps (tables m) (intern_slice v m)
intern_slice-Keeps v m h (s, d) =
    let i = intern_slice-Interned m h.is_canonical v s d in
    let g : Wide (tables m) (tables (intern_slice v m).1) = record {
      arrays_stay = i.grows.arrays_stay;
      slices_stay = i.grows.slices_stay;
    } in
    let (symbols, types) = intern_slice-rest v m in
    record {
      wide = g;
      is_typed = rw (symbols, types) (IsTyped-Wide g i.is_canonical h);
      known = inl (Shape.slice s, i.denotes);
    }

plain-no-array : (k : TypeKind) → IsPlain k → is_array (simple k) ≡ true → ⊥
unfolding kind_value
plain-no-array k (lo, hi) e = ground arith

plain-no-slice : (k : TypeKind) → IsPlain k → is_slice (simple k) ≡ true → ⊥
unfolding kind_value
plain-no-slice k (lo, hi) e = ground arith

pub array_element_type-Concrete :
    (v : ValueType) (m : SemanticModel)
    → Known (tables m) v
    → is_array v ≡ true
    → Concrete (tables m) (array_element_type m v)
unfolding kind_value
array_element_type-Concrete v m (inl (s, Denotes.plain k p f)) e =
    absurd (plain-no-array k p (rw f at e))
array_element_type-Concrete v m (inl (s, Denotes.array info f place n d)) e =
    rw (place, array_element_type) (_, d)
array_element_type-Concrete v m (inl (s, Denotes.slice info f place d)) e = cc (rw f at e)
array_element_type-Concrete v m (inr (inl f)) e = cc (rw f at e)
array_element_type-Concrete v m (inr (inr f)) e = cc (rw f at e)

pub slice_element_type-Concrete :
    (v : ValueType) (m : SemanticModel)
    → Known (tables m) v
    → is_slice v ≡ true
    → Concrete (tables m) (slice_element_type m v)
unfolding kind_value
slice_element_type-Concrete v m (inl (s, Denotes.plain k p f)) e =
    absurd (plain-no-slice k p (rw f at e))
slice_element_type-Concrete v m (inl (s, Denotes.array info f place n d)) e = cc (rw f at e)
slice_element_type-Concrete v m (inl (s, Denotes.slice info f place d)) e =
    rw (place, slice_element_type) (_, d)
slice_element_type-Concrete v m (inr (inl f)) e = cc (rw f at e)
slice_element_type-Concrete v m (inr (inr f)) e = cc (rw f at e)

pub if-Known :
    {t : Tables} {v w : ValueType} (b : Bool) → Known t v → Known t w → Known t (if b then v else w)
if-Known true k l = k
if-Known false k l = l

unless-KnownOption :
    (t : Tables) (v : ValueType) (b : Bool) → Known t v → KnownOption t (if b then none else some v)
unless-KnownOption t v true k = tt
unless-KnownOption t v false k = k

pub usable_context-Known :
    (t : Tables) (c : Option ValueType) → KnownOption t c → KnownOption t (usable_context c)
unfolding usable_context
usable_context-Known t none k = tt
usable_context-Known t (some v) k = unless-KnownOption t v (is_unresolved v || is_error v) k

literal_target-Known :
    (t : Tables) (c : Option ValueType) → KnownOption t c → Known t (literal_target c)
unfolding literal_target kind_value
literal_target-Known t none k = plain-Known t TypeKind.i32 (omega arith)
literal_target-Known t (some v) k =
    if-Known (is_integer v) k (plain-Known t TypeKind.i32 (omega arith))

pub float_literal_type-Known :
    (t : Tables) (c : Option ValueType) → KnownOption t c → Known t (float_literal_type c)
unfolding kind_value
float_literal_type-Known t none k = plain-Known t TypeKind.f64 (omega arith)
float_literal_type-Known t (some v) k =
    if-Known (is_float v) k (plain-Known t TypeKind.f64 (omega arith))

pub integer-Keeps :
    (digits : Bytes) (negative : Bool) (span : SourceSpan) (c : Context) (m : SemanticModel)
    → Typed m
    → KnownOption (tables m) c.0
    → Keeps (tables m) (check_integer_literal_value digits negative span c m)
unfolding check_integer_literal_value
integer-Keeps digits negative span (c, annotation) m h k =
    if-Keeps (magnitude_fits (literal_target c) negative (decode_integer_magnitude digits))
      (λ _. keep _ m h (literal_target-Known (tables m) c k)) (λ _. fails-Keeps _ m h)

literal_type-Keeps :
    (contents : Bytes) (kind : LiteralKind) (span : SourceSpan) (c : Context) (m : SemanticModel)
    → Typed m
    → KnownOption (tables m) c.0
    → Keeps (tables m) (literal_type contents kind span c m)
unfolding literal_type kind_value
literal_type-Keeps contents LiteralKind.integer span (c, a) m h k =
    integer-Keeps _ false span _ m h (usable_context-Known (tables m) c k)
literal_type-Keeps contents LiteralKind.float span (c, a) m h k =
    keep _ m h (float_literal_type-Known (tables m) _ (usable_context-Known (tables m) c k))
literal_type-Keeps contents LiteralKind.bool span c m h k =
    keep _ m h (plain-Known (tables m) TypeKind.bool (omega arith))
literal_type-Keeps contents LiteralKind.char span c m h k =
    keep _ m h (plain-Known (tables m) TypeKind.char (omega arith))
literal_type-Keeps contents LiteralKind.string span c m h k =
    keep _ m h (plain-Known (tables m) TypeKind.str (omega arith))

pub check_literal_expr-Keeps :
    (contents : Bytes) (kind : LiteralKind) (span : SourceSpan) (c : Context) (m : SemanticModel)
    → Typed m
    → KnownOption (tables m) c.0
    → Keeps (tables m) (check_literal_expr contents kind span c m)
unfolding check_literal_expr
check_literal_expr-Keeps contents kind span c m h k =
    typed-Keeps span _ (literal_type-Keeps contents kind span c m h k)
