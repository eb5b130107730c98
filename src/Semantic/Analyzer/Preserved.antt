-- ===== src/Semantic/Analyzer/Preserved.antt =====
-- The steps of the analysis, and what holds of a model.
use kai_cc.Base.{
  Bytes, refl, sym, subst, ap, ◌∙◌, inr, length, get_elem?, get_elem?-last, Every, Every-emplace,
}
use kai_cc.Semantic.Analyzer.Passes.{builtin}
use kai_cc.Semantic.Analyzer.Scopes.{new_symbol}
use kai_cc.Semantic.Analyzer.Steps.{
  IsKnownSymbol, HasName, IsDeclared, Step, Reach, here, next, Step-Grows, symbols-grow,
  IsKnownSymbol-grow, IsSound, symbols_known-append, resolutions-grow, declarations-grow,
}
use kai_cc.Semantic.Model.{SemanticModel, add_error, span_key, empty_model}
use kai_cc.Source.Text.{text}

builtin-IsKnownSymbol : (m : SemanticModel) (name : Bytes) → IsKnownSymbol m (builtin name)
builtin-IsKnownSymbol m name = record { type_known = inr (inr refl); signature_known = tt }

Step-IsSound :
    {contents : Bytes} {m m' : SemanticModel}
    → Step contents m m'
    → IsSound contents m
    → IsSound contents m'
unfolding new_symbol
Step-IsSound {contents} {m} (Step.error e) sound =
    let step : Step contents m (add_error m e) = Step.error e in
    let grows = Step-Grows step in
    record {
      is_canonical = sound.is_canonical;
      symbols_known = λ id s at. IsKnownSymbol-grow grows (sound.symbols_known id s at);
      resolutions_named = resolutions-grow grows sound;
      declarations_named = declarations-grow grows sound;
    }
Step-IsSound {contents} {m} (Step.resolve n id h) sound =
    let grows = Step-Grows (Step.resolve n id h) in
    record {
      is_canonical = sound.is_canonical;
      symbols_known = λ i s at. IsKnownSymbol-grow grows (sound.symbols_known i s at);
      resolutions_named =
          Every-emplace _ n.span id m.identifier_resolutions
            (record { entry = h.entry; found = h.found; named = h.named })
            (resolutions-grow grows sound);
      declarations_named = declarations-grow grows sound;
    }
Step-IsSound {contents} {m} (Step.declare n s named placed known) sound =
    let grows = Step-Grows (Step.declare n s named placed known) in
    record {
      is_canonical = sound.is_canonical;
      symbols_known = λ i x at.
          let k = symbols_known-append s sound known i x at in
          record { type_known = k.type_known; signature_known = k.signature_known };
      resolutions_named = resolutions-grow grows sound;
      declarations_named =
          Every-emplace _ n.span (length m.symbols) m.declaration_symbols
            (record {
              entry = s;
              found = get_elem?-last m.symbols s;
              named = named;
              placed = placed;
            })
            (declarations-grow grows sound);
    }
Step-IsSound {contents} {m} (Step.prelude name) sound = record {
  is_canonical = sound.is_canonical;
  symbols_known = symbols_known-append (builtin name) sound (builtin-IsKnownSymbol m name);
  resolutions_named = resolutions-grow (symbols-grow m (builtin name)) sound;
  declarations_named = declarations-grow (symbols-grow m (builtin name)) sound;
}
Step-IsSound {contents} {m} {m'} (Step.types r symbols resolutions declarations _) sound = record {
  is_canonical = r.is_canonical;
  symbols_known = λ id s at.
      IsKnownSymbol-grow r.grows
        (sound.symbols_known id s (ap (λ xs. get_elem? xs id) (sym symbols) ∙ at));
  resolutions_named =
      subst (Every (λ span id. HasName m' id (text contents span))) (sym resolutions)
        (resolutions-grow r.grows sound);
  declarations_named =
      subst (Every (λ span id. IsDeclared contents m' span id)) (sym declarations)
        (declarations-grow r.grows sound);
}

pub Reach-IsSound :
    {contents : Bytes} {m m' : SemanticModel}
    → IsSound contents m
    → Reach contents m m'
    → IsSound contents m'
Reach-IsSound sound here = sound
Reach-IsSound sound (next r s) = Step-IsSound s (Reach-IsSound sound r)

pub empty_model-IsSound : (contents : Bytes) → IsSound contents empty_model
empty_model-IsSound contents = record {
  is_canonical = record {
    arrays_distinct = λ i j x e. cc e;
    slices_distinct = λ i j x e. cc e;
    arrays_known = λ i x e. cc e;
    slices_known = λ i x e. cc e;
  };
  symbols_known = λ id s e. cc e;
  resolutions_named = tt;
  declarations_named = tt;
}
