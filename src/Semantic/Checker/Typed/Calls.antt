-- ===== src/Semantic/Checker/Typed/Calls.antt =====
-- The calls of compiler/src/semantic/TypeChecker.cpp, and the types in a model.
use kai_cc.Ast.Expr.{Expr, Exprs, Identifier}
use kai_cc.Base.{
  ℕ, ◌==◌, Bool, true, not, ◌&&◌, ◌||◌, Option, none, some, List, [], ◌∷◌, Bytes, codes, ◌≡◌, inl,
  inr, arith, length, Option-cases, Bool-cases,
}
use kai_cc.Lexer.Keywords.{equal}
use kai_cc.Semantic.Checker.Calls.{
  symbol_of, Callee, builtin_named, callee_symbol, callee_of, callee_parameters, Arguments,
  argument_context, is_concrete_mismatch, report_argument, check_user_function_call, is_variable,
  is_eligible_source, slice_argument_result, check_slice_builtin_call, len_argument_result,
  check_len_builtin_call, value_call_result, call_result,
}
use kai_cc.Semantic.Checker.Literals.{unwrap_identifier}
use kai_cc.Semantic.Checker.Operators.{Checked}
use kai_cc.Semantic.Checker.Typed.Rules.{
  keep, keep_error, keep_unresolved, plain-Known, fails-Keeps, if-Keeps, after-Keeps,
  usable_context-Known, intern_slice-Keeps, array_element_type-Concrete,
}
use kai_cc.Semantic.Checker.Typed.{
  Tables, tables, Known, AllKnown, KnownOption, Known-Wide, AllKnown-Wide, KnownSignature,
  KnownSymbol, Typed, Wide, Keeps,
}
use kai_cc.Semantic.Model.{SemanticModel, resolution, symbol}
use kai_cc.Semantic.Symbol.{Symbol, SymbolKind, FunctionSignature}
use kai_cc.Semantic.Types.{
  ValueType, TypeKind, kind_value, is_error, is_unresolved, is_array, is_slice, is_str,
}
use kai_cc.Source.Location.{SourceSpan}

-- The symbol that an identifier was resolved to, if any, is one of the model's.
abbrev pub KnownFound : Tables → Option (ℕ × Symbol) → Type 0
KnownFound t none = Unit
KnownFound t (some (_, s)) = KnownSymbol t s

pub symbol_of-Known :
    (m : SemanticModel) (n : Option Identifier) → Typed m → KnownFound (tables m) (symbol_of m n)
unfolding symbol_of
symbol_of-Known m none h = tt
symbol_of-Known m (some n) h = elim (Option-cases (resolution m n.span)) [
  | inl missing ↦ rw (missing, symbol_of) tt
  | inr (id, e) ↦ elim (Option-cases (symbol m id)) [
    | inl missing ↦ rw (e, missing, symbol_of) tt
    | inr (s, f) ↦ rw (e, f, symbol_of) (h.symbols_known id s f)
  ]
]

abbrev pub KnownCallee : Tables → Callee → Type 0
KnownCallee t (Callee.function f) = AllKnown t f.parameter_types × Known t f.return_type
KnownCallee t _ = Unit

pub KnownCallee-Wide : {t t' : Tables} (c : Callee) → Wide t t' → KnownCallee t c → KnownCallee t' c
KnownCallee-Wide (Callee.function f) g k =
    (AllKnown-Wide f.parameter_types g k.0, Known-Wide f.return_type g k.1)
KnownCallee-Wide Callee.slice_builtin g k = tt
KnownCallee-Wide Callee.len_builtin g k = tt
KnownCallee-Wide Callee.other_builtin g k = tt
KnownCallee-Wide Callee.value g k = tt

builtin_named-Known : (t : Tables) (name : Bytes) → KnownCallee t (builtin_named name)
unfolding builtin_named
builtin_named-Known t name = elim (Bool-cases (equal name (codes "slice"))) [
  | inl e ↦ rw e tt
  | inr e ↦ elim (Bool-cases (equal name (codes "len"))) [
    | inl f ↦ rw (e, f) tt
    | inr f ↦ rw (e, f) tt
  ]
]

signature-Known :
    (t : Tables) (f : Option FunctionSignature)
    → KnownSignature t f
    → KnownCallee t (elim f [ some signature ↦ Callee.function signature | none ↦ Callee.value ])
signature-Known t none k = tt
signature-Known t (some f) k = k

callee_symbol-Known :
    (t : Tables) (kind : SymbolKind) (s : Symbol)
    → KnownSymbol t s
    → KnownCallee t (callee_symbol kind s)
callee_symbol-Known t SymbolKind.function s k = signature-Known t s.signature k.signature_known
callee_symbol-Known t SymbolKind.builtin s k = builtin_named-Known t s.name
callee_symbol-Known t SymbolKind.parameter s k = tt
callee_symbol-Known t SymbolKind.local s k = tt

abbrev found_callee : Option (ℕ × Symbol) → Callee
found_callee found = elim found [ some (_, s) ↦ callee_symbol s.kind s | none ↦ Callee.value ]

found_callee-Known :
    (t : Tables) (found : Option (ℕ × Symbol))
    → KnownFound t found
    → KnownCallee t (found_callee found)
found_callee-Known t none k = tt
found_callee-Known t (some (_, s)) k = callee_symbol-Known t s.kind s k

pub callee_of-Known :
    (m : SemanticModel) (callee : Expr) → Typed m → KnownCallee (tables m) (callee_of m callee)
unfolding callee_of
callee_of-Known m callee h =
    found_callee-Known (tables m) (symbol_of m (unwrap_identifier callee)) (symbol_of-Known m _ h)

pub callee_parameters-Known :
    (t : Tables) (c : Callee) → KnownCallee t c → AllKnown t (callee_parameters c)
callee_parameters-Known t (Callee.function f) k = k.0
callee_parameters-Known t Callee.slice_builtin k = tt
callee_parameters-Known t Callee.len_builtin k = tt
callee_parameters-Known t Callee.other_builtin k = tt
callee_parameters-Known t Callee.value k = tt

pub argument_context-Known :
    (t : Tables) (vs : List ValueType) → AllKnown t vs → KnownOption t (argument_context vs).0
argument_context-Known t [] k = tt
argument_context-Known t (v ∷ vs) k = usable_context-Known t (some v) k.0

-- A wrong type is reported and stays what it is.
pub report_argument-Keeps :
    {t : Tables} (vs : List ValueType) (span : SourceSpan) (r : Checked)
    → Keeps t r
    → Keeps t (report_argument vs span r)
unfolding report_argument
report_argument-Keeps [] span (v, m) k = k
report_argument-Keeps (p ∷ vs) span (v, m) k = elim (Bool-cases (is_concrete_mismatch (p ∷ vs) v)) [
  | inl e ↦ rw e (record { wide = k.wide; is_typed = k.is_typed; known = k.known })
  | inr e ↦ rw e k
]

pub record KeepsArguments (t : Tables) (a : Arguments) : Type 0 where
  pub wide : Wide t (tables a.model)
  pub is_typed : Typed a.model
  pub all_known : AllKnown (tables a.model) a.types

both-true : (a b : Bool) → (a && b) ≡ true → b ≡ true
both-true a b e = ground arith

eligible-array :
    (m : SemanticModel) (e : Expr) (v : ValueType)
    → is_eligible_source m e v ≡ true
    → is_array v ≡ true
unfolding is_eligible_source
eligible-array m e v source = elim (Option-cases (symbol_of m (unwrap_identifier e))) [
  | inl missing ↦ cc (rw (missing, is_eligible_source) at source)
  | inr ((id, s), found) ↦
      both-true (is_variable s.kind) (is_array v) (rw (found, is_eligible_source) at source)
]

slice_argument-Keeps :
    (e : Expr) (v : ValueType) (m : SemanticModel)
    → Typed m
    → Known (tables m) v
    → Keeps (tables m) (slice_argument_result e v m)
unfolding slice_argument_result
slice_argument-Keeps e v m h k =
    if-Keeps (is_error v) (λ _. keep_error m h)
      (λ _.
        if-Keeps (is_unresolved v) (λ _. keep_unresolved m h)
          (λ _.
            if-Keeps (is_eligible_source m e v)
              (λ source.
                intern_slice-Keeps _ m h
                  (array_element_type-Concrete v m k (eligible-array m e v source)))
              (λ _. fails-Keeps _ m h)))

len_argument-Keeps :
    (e : Expr) (v : ValueType) (m : SemanticModel)
    → Typed m
    → Keeps (tables m) (len_argument_result e v m)
unfolding len_argument_result kind_value
len_argument-Keeps e v m h =
    if-Keeps (is_error v) (λ _. keep_error m h)
      (λ _.
        if-Keeps (is_unresolved v) (λ _. keep_unresolved m h)
          (λ _.
            if-Keeps (is_array v || is_slice v || is_str v)
              (λ _. keep _ m h (plain-Known (tables m) TypeKind.u64 (omega arith)))
              (λ _. fails-Keeps _ m h)))

check_slice-Keeps :
    (es : Exprs) (span : SourceSpan) (vs : List ValueType) (f g : Bool) (m : SemanticModel)
    → Typed m
    → AllKnown (tables m) vs
    → Keeps (tables m) (
        check_slice_builtin_call es span
          (record { types = vs; has_concrete_mismatch = f; has_argument_error = g; model = m }))
unfolding check_slice_builtin_call
check_slice-Keeps Exprs.nil span vs f g m h k = fails-Keeps _ m h
check_slice-Keeps (Exprs.cons e Exprs.nil) span [] f g m h k = keep_error m h
check_slice-Keeps (Exprs.cons e Exprs.nil) span (v ∷ vs) f g m h k =
    slice_argument-Keeps e v m h k.0
check_slice-Keeps (Exprs.cons e (Exprs.cons d es)) span vs f g m h k = fails-Keeps _ m h

check_len-Keeps :
    (es : Exprs) (span : SourceSpan) (vs : List ValueType) (f g : Bool) (m : SemanticModel)
    → Typed m
    → Keeps (tables m) (
        check_len_builtin_call es span
          (record { types = vs; has_concrete_mismatch = f; has_argument_error = g; model = m }))
unfolding check_len_builtin_call
check_len-Keeps Exprs.nil span vs f g m h = fails-Keeps _ m h
check_len-Keeps (Exprs.cons e Exprs.nil) span [] f g m h = keep_error m h
check_len-Keeps (Exprs.cons e Exprs.nil) span (v ∷ vs) f g m h = len_argument-Keeps e v m h
check_len-Keeps (Exprs.cons e (Exprs.cons d es)) span vs f g m h = fails-Keeps _ m h

pub call_result-Keeps :
    {t : Tables} (c : Callee) (callee_span : SourceSpan) (es : Exprs) (span : SourceSpan)
    (v : ValueType) (a : Arguments)
    → KeepsArguments t a
    → KnownCallee (tables a.model) c
    → Keeps t (call_result c callee_span es span v a)
unfolding call_result check_user_function_call value_call_result
call_result-Keeps (Callee.function f) callee_span es span v a k known = after-Keeps k.wide (
    if-Keeps (not (length a.types == length f.parameter_types))
      (λ _. fails-Keeps _ a.model k.is_typed)
      (λ _.
        if-Keeps (a.has_concrete_mismatch || a.has_argument_error)
          (λ _. keep_error a.model k.is_typed) (λ _. keep _ a.model k.is_typed known.1)))
call_result-Keeps Callee.slice_builtin callee_span es span v a k known =
    after-Keeps k.wide (check_slice-Keeps es span a.types _ _ a.model k.is_typed k.all_known)
call_result-Keeps Callee.len_builtin callee_span es span v a k known =
    after-Keeps k.wide (check_len-Keeps es span a.types _ _ a.model k.is_typed)
call_result-Keeps Callee.other_builtin callee_span es span v a k known =
    after-Keeps k.wide (keep_unresolved a.model k.is_typed)
call_result-Keeps Callee.value callee_span es span v a k known = after-Keeps k.wide (
    if-Keeps (is_error v) (λ _. keep_error a.model k.is_typed)
      (λ _.
        if-Keeps (is_unresolved v) (λ _. keep_unresolved a.model k.is_typed)
          (λ _. fails-Keeps _ a.model k.is_typed)))
