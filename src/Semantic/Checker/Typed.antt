-- ===== src/Semantic/Checker/Typed.antt =====
-- What holds of the types in a model while the type checker runs.
pub mod Rules
pub mod Operators
pub mod Arrays
pub mod Calls
pub mod Assignments
pub mod Expressions
pub mod Statements
pub mod Bodies
use kai_cc.Base.{
  ℕ, Bool, true, false, Option, none, some, List, [], ◌∷◌, ◌≡◌, ◌⊎◌, inl, inr, refl, Every,
  Option-cases, Bool-cases, get_elem?, if◌then◌else◌,
}
use kai_cc.Semantic.Checker.Literals.{Context, typed}
use kai_cc.Semantic.Checker.Operators.{Checked, Check, fails}
use kai_cc.Semantic.Model.{
  ArrayTypeInfo, SliceTypeInfo, SemanticModel, SemanticError, add_error, intern_array, intern_slice,
  array_info, slice_info, span_key,
}
use kai_cc.Semantic.Shapes.Tables.{
  Stays, Denotes-grow, intern_array-Interned, intern_slice-Interned,
}
use kai_cc.Semantic.Shapes.{Shape, Denotes, IsCanonical}
use kai_cc.Semantic.Symbol.{Symbol, FunctionSignature}
use kai_cc.Semantic.Types.{ValueType, TypeKind, simple}
use kai_cc.Semantic.Updates.{set_expression_type, array_element_type, slice_element_type}
use kai_cc.Source.Location.{SourceSpan}

-- The arrays and slices of a model.
pub record Tables : Type 0 where
  pub arrays : List ArrayTypeInfo
  pub slices : List SliceTypeInfo

abbrev pub tables : SemanticModel → Tables
tables m = record { arrays = m.array_types; slices = m.slice_types }

abbrev pub Concrete : Tables → ValueType → Type 0
Concrete t v = (s : Shape) × Denotes t.arrays t.slices v s

-- A structure, or an error, or a deferred type.
abbrev pub Known : Tables → ValueType → Type 0
Known t v = Concrete t v ⊎ ((v ≡ simple TypeKind.error) ⊎ (v ≡ simple TypeKind.unresolved))

abbrev pub AllKnown : Tables → List ValueType → Type 0
AllKnown t [] = Unit
AllKnown t (v ∷ vs) = Known t v × AllKnown t vs

abbrev pub KnownOption : Tables → Option ValueType → Type 0
KnownOption t none = Unit
KnownOption t (some v) = Known t v

abbrev pub KnownSignature : Tables → Option FunctionSignature → Type 0
KnownSignature t none = Unit
KnownSignature t (some f) = AllKnown t f.parameter_types × Known t f.return_type

pub record KnownSymbol (t : Tables) (s : Symbol) : Type 0 where
  pub type_known : Known t s.type
  pub signature_known : KnownSignature t s.signature

pub record IsTyped (t : Tables) (symbols : List Symbol) (types : List (SourceSpan × ValueType))
    : Type 0 where
  pub is_canonical : IsCanonical t.arrays t.slices
  pub symbols_known : (id : ℕ) (s : Symbol) → get_elem? symbols id ≡ some s → KnownSymbol t s
  pub types_known : Every (λ span v. Known t v) types

abbrev pub Typed : SemanticModel → Type 0
Typed m = IsTyped (tables m) m.symbols m.expression_types

pub record Wide (t t' : Tables) : Type 0 where
  pub arrays_stay : Stays t.arrays t'.arrays
  pub slices_stay : Stays t.slices t'.slices

pub Wide-refl : (t : Tables) → Wide t t
Wide-refl t = record { arrays_stay = λ i x e. e; slices_stay = λ i x e. e }

pub Wide-trans : {t t' t'' : Tables} → Wide t t' → Wide t' t'' → Wide t t''
Wide-trans g h = record {
  arrays_stay = λ i x e. h.arrays_stay i x (g.arrays_stay i x e);
  slices_stay = λ i x e. h.slices_stay i x (g.slices_stay i x e);
}

pub Known-Wide : {t t' : Tables} (v : ValueType) → Wide t t' → Known t v → Known t' v
Known-Wide v g (inl (s, d)) = inl (s, Denotes-grow g.arrays_stay g.slices_stay d)
Known-Wide v g (inr h) = inr h

pub AllKnown-Wide :
    {t t' : Tables} (vs : List ValueType) → Wide t t' → AllKnown t vs → AllKnown t' vs
AllKnown-Wide [] g h = tt
AllKnown-Wide (v ∷ vs) g h = (Known-Wide v g h.0, AllKnown-Wide vs g h.1)

pub KnownOption-Wide :
    {t t' : Tables} (v : Option ValueType) → Wide t t' → KnownOption t v → KnownOption t' v
KnownOption-Wide none g h = tt
KnownOption-Wide (some v) g h = Known-Wide v g h

signature-Wide :
    {t t' : Tables} (f : Option FunctionSignature)
    → Wide t t'
    → KnownSignature t f
    → KnownSignature t' f
signature-Wide none g h = tt
signature-Wide (some f) g h =
    (AllKnown-Wide f.parameter_types g h.0, Known-Wide f.return_type g h.1)

pub KnownSymbol-Wide : {t t' : Tables} (s : Symbol) → Wide t t' → KnownSymbol t s → KnownSymbol t' s
KnownSymbol-Wide s g k = record {
  type_known = Known-Wide s.type g k.type_known;
  signature_known = signature-Wide s.signature g k.signature_known;
}

types-Wide :
    {t t' : Tables} (types : List (SourceSpan × ValueType))
    → Wide t t'
    → Every (λ span v. Known t v) types
    → Every (λ span v. Known t' v) types
types-Wide [] g h = tt
types-Wide ((span, v) ∷ types) g h = (Known-Wide v g h.0, types-Wide types g h.1)

-- Canonical tables that are wider.
pub IsTyped-Wide :
    {t t' : Tables} {symbols : List Symbol} {types : List (SourceSpan × ValueType)}
    → Wide t t'
    → IsCanonical t'.arrays t'.slices
    → IsTyped t symbols types
    → IsTyped t' symbols types
IsTyped-Wide {symbols} {types} g c h = record {
  is_canonical = c;
  symbols_known = λ id s e. KnownSymbol-Wide s g (h.symbols_known id s e);
  types_known = types-Wide types g h.types_known;
}

-- From tables on: a model with wider ones, and a type that it knows.
pub record Keeps (t : Tables) (r : Checked) : Type 0 where
  pub wide : Wide t (tables r.1)
  pub is_typed : Typed r.1
  pub known : Known (tables r.1) r.0

-- What a check of an expression does, whatever its context is.
abbrev pub Safe : Check → Type 0
Safe check =
    (c : Context) (m : SemanticModel)
    → Typed m
    → KnownOption (tables m) c.0
    → Keeps (tables m) (check c m)

pub error-Known : (t : Tables) → Known t (simple TypeKind.error)
error-Known t = inr (inl refl)

pub unresolved-Known : (t : Tables) → Known t (simple TypeKind.unresolved)
unresolved-Known t = inr (inr refl)
