-- ===== src/Semantic/Updates.antt =====
-- What the type checker reads and writes in a SemanticModel of
-- compiler/include/kai/semantic/SemanticModel.hpp: the types of expressions and of symbols, and
-- where the slices in variables come from.
use kai_cc.Base.{
  ℕ, zero, suc, ◌==◌, ==_iff, Bool, true, false, none, some, List, [], ◌∷◌, Key, find,
  insert_or_assign,
}
use kai_cc.Semantic.Model.{SemanticModel, SliceProvenance, span_key, array_info, slice_info}
use kai_cc.Semantic.Symbol.{Symbol}
use kai_cc.Semantic.Types.{ValueType, TypeKind, simple}
use kai_cc.Source.Location.{SourceSpan}

instance abbrev pub id_key : Key ℕ
id_key = record { equal = λ a b. a == b; equal_iff = ==_iff }

abbrev pub Provenances : Type 0
Provenances = List (ℕ × SliceProvenance)

-- The entry at a place, changed; nothing past the end.
unfoldable pub change_at : ℕ → (Symbol → Symbol) → List Symbol → List Symbol
change_at i f [] = []
change_at zero f (s ∷ symbols) = f s ∷ symbols
change_at (suc i) f (s ∷ symbols) = s ∷ change_at i f symbols

abbrev pub set_expression_type : SourceSpan → ValueType → SemanticModel → SemanticModel
set_expression_type expr t m = record m {
  expression_types = insert_or_assign expr t m.expression_types;
}

abbrev pub set_symbol_type : ℕ → ValueType → SemanticModel → SemanticModel
set_symbol_type id t m = record m { symbols = change_at id (λ s. record s { type = t }) m.symbols }

-- The id has to be that of an array or a slice of the model; no other is asked for.
abbrev pub array_element_type : SemanticModel → ValueType → ValueType
array_element_type m t = elim (array_info m t) [
  | some info ↦ info.element_type
  | none ↦ simple TypeKind.error
]

abbrev pub array_length : SemanticModel → ValueType → ℕ
array_length m t = elim (array_info m t) [ some info ↦ info.length | none ↦ 0 ]

abbrev pub slice_element_type : SemanticModel → ValueType → ValueType
slice_element_type m t = elim (slice_info m t) [
  | some info ↦ info.element_type
  | none ↦ simple TypeKind.error
]

abbrev pub provenance_in : ℕ → Provenances → SliceProvenance
provenance_in id entries = elim (find id entries) [ some p ↦ p | none ↦ SliceProvenance.unknown ]

abbrev pub slice_provenance_of : ℕ → SemanticModel → SliceProvenance
slice_provenance_of id m = provenance_in id m.slice_provenance

-- The list of touched ids stands for a set.
unfoldable pub touch : Bool → ℕ → List ℕ → List ℕ
touch true id touched = id ∷ touched
touch false id touched = touched

abbrev pub set_slice_provenance : ℕ → SliceProvenance → SemanticModel → SemanticModel
set_slice_provenance id p m = record m {
  slice_provenance = insert_or_assign id p m.slice_provenance;
  slice_provenance_touched = touch m.slice_provenance_touch_tracking id m.slice_provenance_touched;
}

abbrev pub restore_slice_provenance : Provenances → SemanticModel → SemanticModel
restore_slice_provenance snapshot m = record m { slice_provenance = snapshot }

abbrev pub begin_touch_tracking : SemanticModel → SemanticModel
begin_touch_tracking m = record m {
  slice_provenance_touched = [];
  slice_provenance_touch_tracking = true;
}

-- What was touched is moved out.
abbrev pub end_touch_tracking : SemanticModel → List ℕ × SemanticModel
end_touch_tracking m = (
  m.slice_provenance_touched,
  record m { slice_provenance_touched = []; slice_provenance_touch_tracking = false },
)
