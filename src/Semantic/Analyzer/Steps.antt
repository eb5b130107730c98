-- ===== src/Semantic/Analyzer/Steps.antt =====
-- The analysis of compiler/src/semantic/SemanticAnalyzer.cpp as a sequence of small changes of the
-- model, and what is asked of a model.
use kai_cc.Ast.Expr.{Identifier}
use kai_cc.Base.{
  refl, ◌∙◌, ℕ, Option, none, some, List, [], ◌∷◌, ◌++◌, Bytes, ◌≡◌, ◌⊎◌, inl, inr, subst,
  get_elem?, get_elem?-cases, Every,
}
use kai_cc.Semantic.Analyzer.Passes.{builtin}
use kai_cc.Semantic.Analyzer.Scopes.{new_symbol}
use kai_cc.Semantic.Model.{
  SemanticError, SemanticModel, add_error, add_symbol, record_resolution, span_key, symbol,
}
use kai_cc.Semantic.Shapes.Spelling.{Spelling, Resolved}
use kai_cc.Semantic.Shapes.Tables.{Grows, Grows-refl, Grows-trans, HasShape-grow, Stays-append}
use kai_cc.Semantic.Shapes.{HasShape, IsCanonical}
use kai_cc.Semantic.Symbol.{Symbol, FunctionSignature}
use kai_cc.Semantic.Types.{ValueType, TypeKind, simple}
use kai_cc.Source.Location.{SourceSpan}
use kai_cc.Source.Text.{text}

-- A type that is erroneous, unresolved, or has a structure.
abbrev pub IsKnown : SemanticModel → ValueType → Type 0
IsKnown m t = HasShape m t ⊎ ((t ≡ simple TypeKind.error) ⊎ (t ≡ simple TypeKind.unresolved))

abbrev pub AllKnown : SemanticModel → List ValueType → Type 0
AllKnown m [] = Unit
AllKnown m (t ∷ ts) = IsKnown m t × AllKnown m ts

abbrev pub HasKnownSignature : SemanticModel → Option FunctionSignature → Type 0
HasKnownSignature m none = Unit
HasKnownSignature m (some f) = AllKnown m f.parameter_types × IsKnown m f.return_type

-- The types of a symbol.
pub record IsKnownSymbol (m : SemanticModel) (s : Symbol) : Type 0 where
  pub type_known : IsKnown m s.type
  pub signature_known : HasKnownSignature m s.signature

-- The id is that of a symbol with the name.
pub record HasName (m : SemanticModel) (id : ℕ) (name : Bytes) : Type 0 where
  pub entry : Symbol
  pub found : symbol m id ≡ some entry
  pub named : entry.name ≡ name

-- The id is that of the symbol which the identifier declares.
pub record IsDeclared (contents : Bytes) (m : SemanticModel) (span : SourceSpan) (id : ℕ)
    : Type 0 where
  pub entry : Symbol
  pub found : symbol m id ≡ some entry
  pub named : entry.name ≡ text contents span
  pub placed : entry.declared_at ≡ some span

-- One change: an error, a resolution to a symbol of that name, a declaration, an entry of the
-- prelude, or a type that was resolved.
pub data Step (contents : Bytes) (m : SemanticModel) : SemanticModel → Type 0 where
  error : (e : SemanticError) → Step contents m (add_error m e)
  resolve :
      (n : Identifier) (id : ℕ)
      → HasName m id (text contents n.span)
      → Step contents m (record_resolution m n.span id)
  declare :
      (n : Identifier) (s : Symbol)
      → s.name ≡ text contents n.span
      → s.declared_at ≡ some n.span
      → IsKnownSymbol m s
      → Step contents m (new_symbol n s m).1
  prelude : (name : Bytes) → Step contents m (add_symbol m (builtin name)).1
  types :
      {m' : SemanticModel} {t : ValueType} {p : Spelling}
      → Resolved m m' t p
      → m'.symbols ≡ m.symbols
      → m'.identifier_resolutions ≡ m.identifier_resolutions
      → m'.declaration_symbols ≡ m.declaration_symbols
      → m'.expression_types ≡ m.expression_types
      → Step contents m m'

pub data Reach (contents : Bytes) (m : SemanticModel) : SemanticModel → Type 0 where
  here : Reach contents m m
  next :
      {m' m'' : SemanticModel} → Reach contents m m' → Step contents m' m'' → Reach contents m m''

pub Reach-trans :
    {contents : Bytes} {m m' m'' : SemanticModel}
    → Reach contents m m'
    → Reach contents m' m''
    → Reach contents m m''
Reach-trans r here = r
Reach-trans r (next q s) = next (Reach-trans r q) s

pub symbols-grow : (m : SemanticModel) (s : Symbol) → Grows m (add_symbol m s).1
symbols-grow m s = record {
  symbols_stay = Stays-append m.symbols (s ∷ []);
  arrays_stay = λ i x e. e;
  slices_stay = λ i x e. e;
}

pub Step-Grows : {contents : Bytes} {m m' : SemanticModel} → Step contents m m' → Grows m m'
unfolding new_symbol
Step-Grows (Step.error e) = record {
  symbols_stay = λ i x e. e;
  arrays_stay = λ i x e. e;
  slices_stay = λ i x e. e;
}
Step-Grows (Step.resolve n id h) = record {
  symbols_stay = λ i x e. e;
  arrays_stay = λ i x e. e;
  slices_stay = λ i x e. e;
}
Step-Grows {contents} {m} (Step.declare n s _ _ _) = record {
  symbols_stay = Stays-append m.symbols (s ∷ []);
  arrays_stay = λ i x e. e;
  slices_stay = λ i x e. e;
}
Step-Grows {contents} {m} (Step.prelude name) = symbols-grow m (builtin name)
Step-Grows (Step.types r _ _ _ _) = r.grows

pub Reach-Grows : {contents : Bytes} {m m' : SemanticModel} → Reach contents m m' → Grows m m'
Reach-Grows {contents} {m} here = Grows-refl m
Reach-Grows (next r s) = Grows-trans (Reach-Grows r) (Step-Grows s)

pub IsKnown-grow : {m m' : SemanticModel} {t : ValueType} → Grows m m' → IsKnown m t → IsKnown m' t
IsKnown-grow g (inl h) = inl (HasShape-grow g h)
IsKnown-grow g (inr h) = inr h

pub AllKnown-grow :
    {m m' : SemanticModel} (ts : List ValueType) → Grows m m' → AllKnown m ts → AllKnown m' ts
AllKnown-grow [] g h = tt
AllKnown-grow (t ∷ ts) g h = (IsKnown-grow g h.0, AllKnown-grow ts g h.1)

signature-grow :
    {m m' : SemanticModel} (f : Option FunctionSignature)
    → Grows m m'
    → HasKnownSignature m f
    → HasKnownSignature m' f
signature-grow none g h = tt
signature-grow (some f) g h = (AllKnown-grow f.parameter_types g h.0, IsKnown-grow g h.1)

pub IsKnownSymbol-grow :
    {m m' : SemanticModel} {s : Symbol} → Grows m m' → IsKnownSymbol m s → IsKnownSymbol m' s
IsKnownSymbol-grow {m} {m'} {s} g k = record {
  type_known = IsKnown-grow g k.type_known;
  signature_known = signature-grow s.signature g k.signature_known;
}

pub HasName-grow :
    {m m' : SemanticModel} {id : ℕ} {name : Bytes}
    → Grows m m'
    → HasName m id name
    → HasName m' id name
HasName-grow g h = record {
  entry = h.entry;
  found = g.symbols_stay _ h.entry h.found;
  named = h.named;
}

IsDeclared-grow :
    {contents : Bytes} {m m' : SemanticModel} {span : SourceSpan} {id : ℕ}
    → Grows m m'
    → IsDeclared contents m span id
    → IsDeclared contents m' span id
IsDeclared-grow g h = record {
  entry = h.entry;
  found = g.symbols_stay _ h.entry h.found;
  named = h.named;
  placed = h.placed;
}

-- What holds of a model at every point of the analysis.
pub record IsSound (contents : Bytes) (m : SemanticModel) : Type 0 where
  pub is_canonical : IsCanonical m.array_types m.slice_types
  pub symbols_known : (id : ℕ) (s : Symbol) → symbol m id ≡ some s → IsKnownSymbol m s
  pub resolutions_named :
      Every (λ span id. HasName m id (text contents span)) m.identifier_resolutions
  pub declarations_named : Every (λ span id. IsDeclared contents m span id) m.declaration_symbols

Every-map :
    {V : Type 0} {P Q : SourceSpan → V → Type 0} (xs : List (SourceSpan × V))
    → ((k : SourceSpan) (v : V) → P k v → Q k v)
    → Every P xs
    → Every Q xs
Every-map [] f h = tt
Every-map ((k, v) ∷ xs) f h = (f k v h.0, Every-map xs f h.1)

module _ {contents : Bytes} {m m' : SemanticModel} (g : Grows m m')
    (sound : IsSound contents m) where
  pub resolutions-grow :
      Every (λ span id. HasName m' id (text contents span)) m.identifier_resolutions
  resolutions-grow =
      Every-map m.identifier_resolutions (λ k v h. HasName-grow g h) sound.resolutions_named

  pub declarations-grow : Every (λ span id. IsDeclared contents m' span id) m.declaration_symbols
  declarations-grow =
      Every-map m.declaration_symbols (λ k v h. IsDeclared-grow g h) sound.declarations_named

-- A symbol behind the others.
pub symbols_known-append :
    {contents : Bytes} {m : SemanticModel} (s : Symbol)
    → IsSound contents m
    → IsKnownSymbol m s
    → (id : ℕ) (x : Symbol) → get_elem? (m.symbols ++ s ∷ []) id ≡ some x
    → IsKnownSymbol (add_symbol m s).1 x
symbols_known-append {contents} {m} s sound k id x e = elim (get_elem?-cases m.symbols s id e) [
  | inl h ↦ IsKnownSymbol-grow (symbols-grow m s) (sound.symbols_known id x h)
  | inr (_, at) ↦ IsKnownSymbol-grow (symbols-grow m s) (subst (IsKnownSymbol m) at k)
]

Step-expressions :
    {contents : Bytes} {m m' : SemanticModel}
    → Step contents m m'
    → m'.expression_types ≡ m.expression_types
unfolding new_symbol
Step-expressions (Step.error e) = refl
Step-expressions (Step.resolve n id h) = refl
Step-expressions (Step.declare n s _ _ _) = refl
Step-expressions (Step.prelude name) = refl
Step-expressions (Step.types r _ _ _ e) = e

-- The analyzer gives no expression a type.
pub Reach-expressions :
    {contents : Bytes} {m m' : SemanticModel}
    → Reach contents m m'
    → m'.expression_types ≡ m.expression_types
Reach-expressions here = refl
Reach-expressions (next r s) = Step-expressions s ∙ Reach-expressions r
