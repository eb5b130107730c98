-- ===== src/Semantic/Checker/Sound.antt =====
-- The type checker behind the analyzer.
use kai_cc.Ast.Decl.{SourceFile}
use kai_cc.Base.{Option, none, some, List, [], ◌∷◌, Bytes, ◌≡◌, sym, subst, Every}
use kai_cc.Semantic.Analyzer.Passes.{analyze}
use kai_cc.Semantic.Analyzer.Run.{analyze-Reach, analyze-IsSound}
use kai_cc.Semantic.Analyzer.Steps
use kai_cc.Semantic.Analyzer.Steps.{IsKnownSymbol, HasKnownSignature, IsSound, Reach-expressions}
use kai_cc.Semantic.Checker.Functions.{check_types}
use kai_cc.Semantic.Checker.Typed.Bodies.{check_types-Keeps}
use kai_cc.Semantic.Checker.Typed.{tables, Known, AllKnown, KnownSignature, KnownSymbol, Typed}
use kai_cc.Semantic.Model.{SemanticModel, span_key}
use kai_cc.Semantic.Symbol.{Symbol, FunctionSignature}
use kai_cc.Semantic.Types.{ValueType}

all-AllKnown :
    (m : SemanticModel) (vs : List ValueType) → Steps.AllKnown m vs → AllKnown (tables m) vs
all-AllKnown m [] k = tt
all-AllKnown m (v ∷ vs) k = (k.0, all-AllKnown m vs k.1)

signature-KnownSignature :
    (m : SemanticModel) (f : Option FunctionSignature)
    → HasKnownSignature m f
    → KnownSignature (tables m) f
signature-KnownSignature m none k = tt
signature-KnownSignature m (some f) k = (all-AllKnown m f.parameter_types k.0, k.1)

symbol-KnownSymbol : (m : SemanticModel) (s : Symbol) → IsKnownSymbol m s → KnownSymbol (tables m) s
symbol-KnownSymbol m s k = record {
  type_known = k.type_known;
  signature_known = signature-KnownSignature m s.signature k.signature_known;
}

sound-Typed :
    {contents : Bytes} (m : SemanticModel) → IsSound contents m → m.expression_types ≡ [] → Typed m
sound-Typed m h e = record {
  is_canonical = h.is_canonical;
  symbols_known = λ id s at. symbol-KnownSymbol m s (h.symbols_known id s at);
  types_known = subst (Every (λ span v. Known (tables m) v)) (sym e) tt;
}

-- For every buffer and every tree, in the model that check_types makes of what analyze built,
-- every type recorded for an expression, a symbol or a signature has a structure or is
-- erroneous or unresolved, and no array or slice stands twice in the tables.
pub check_types-Typed :
    (contents : Bytes) (file : SourceFile)
    → Typed (check_types contents file (analyze contents file))
check_types-Typed contents file =
    let m = analyze contents file in
    (check_types-Keeps contents file m (
      sound-Typed m (analyze-IsSound contents file)
        (Reach-expressions (analyze-Reach contents file)))).is_typed
