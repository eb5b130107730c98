-- ===== src/Semantic/Model.antt =====
-- compiler/include/kai/semantic/SemanticModel.hpp: what the semantic passes know of a file. The
-- maps whose keys are the addresses of nodes have the nodes' spans as keys here.
use kai_cc.Base.{
  ℕ, ◌&&◌, Bool, true, false, Option, none, List, [], ◌∷◌, ◌++◌, ◌==◌, ◌↔◌, ◌≡◌, arith, length,
  get_elem?, if◌then◌else◌, Key, find, emplace, index_where,
}
use kai_cc.Semantic.Symbol.{Symbol}
use kai_cc.Semantic.Types.{ValueType, TypeKind, types_equal}
use kai_cc.Source.Location.{SourceSpan}

pub data SemanticErrorKind : Type 0 where
  duplicate_symbol unknown_identifier unknown_type type_mismatch : SemanticErrorKind
  literal_out_of_range invalid_unary_operand invalid_binary_operands : SemanticErrorKind
  invalid_argument_count not_callable invalid_assignment_target : SemanticErrorKind
  assignment_to_immutable_binding missing_return unsupported_str_return : SemanticErrorKind
  unsupported_for_iterable ambiguous_empty_array_literal : SemanticErrorKind
  incompatible_array_element_type invalid_index_target invalid_index_type : SemanticErrorKind
  array_index_out_of_bounds slice_index_out_of_bounds : SemanticErrorKind
  assignment_through_immutable_slice invalid_slice_source invalid_len_operand : SemanticErrorKind
  escaping_local_slice : SemanticErrorKind

pub data SliceProvenance : Type 0 where
  external local unknown : SliceProvenance

pub record SemanticError : Type 0 where
  pub kind : SemanticErrorKind
  pub primary_span : SourceSpan
  pub related_span : Option SourceSpan
  pub expected_type : Option ValueType
  pub actual_type : Option ValueType

-- An error with no types.
abbrev pub plain_error : SemanticErrorKind → SourceSpan → Option SourceSpan → SemanticError
plain_error kind span related = record {
  kind = kind;
  primary_span = span;
  related_span = related;
  expected_type = none;
  actual_type = none;
}

pub record ArrayTypeInfo : Type 0 where
  pub element_type : ValueType
  pub length : ℕ

pub record SliceTypeInfo : Type 0 where
  pub element_type : ValueType

pub record SemanticModel : Type 0 where
  pub symbols : List Symbol
  pub identifier_resolutions : List (SourceSpan × ℕ)
  pub declaration_symbols : List (SourceSpan × ℕ)
  pub errors : List SemanticError
  pub expression_types : List (SourceSpan × ValueType)
  pub array_types : List ArrayTypeInfo
  pub slice_types : List SliceTypeInfo
  pub slice_provenance : List (ℕ × SliceProvenance)
  pub slice_provenance_touched : List ℕ
  pub slice_provenance_touch_tracking : Bool

abbrev pub empty_model : SemanticModel
empty_model = record {
  symbols = [];
  identifier_resolutions = [];
  declaration_symbols = [];
  errors = [];
  expression_types = [];
  array_types = [];
  slice_types = [];
  slice_provenance = [];
  slice_provenance_touched = [];
  slice_provenance_touch_tracking = false;
}

abbrev pub spans_equal : SourceSpan → SourceSpan → Bool
spans_equal a b =
    a.begin.file == b.begin.file
    && a.begin.offset == b.begin.offset
    && a.end.file == b.end.file
    && a.end.offset == b.end.offset

pub spans_equal_iff : (a b : SourceSpan) → (spans_equal a b ≡ true) ↔ (a ≡ b)
spans_equal_iff a b = ground arith

instance abbrev pub span_key : Key SourceSpan
span_key = record { equal = spans_equal; equal_iff = spans_equal_iff }

module _ (m : SemanticModel) where
  abbrev pub resolution : SourceSpan → Option ℕ
  resolution identifier = find identifier m.identifier_resolutions

  abbrev pub declaration_symbol : SourceSpan → Option ℕ
  declaration_symbol identifier = find identifier m.declaration_symbols

  abbrev pub symbol : ℕ → Option Symbol
  symbol id = get_elem? m.symbols id

  abbrev pub type_of : SourceSpan → Option ValueType
  type_of expr = find expr m.expression_types

  abbrev pub array_info : ValueType → Option ArrayTypeInfo
  array_info t = get_elem? m.array_types t.compound_id

  abbrev pub slice_info : ValueType → Option SliceTypeInfo
  slice_info t = get_elem? m.slice_types t.compound_id

  abbrev pub add_symbol : Symbol → ℕ × SemanticModel
  add_symbol s = (length m.symbols, record m { symbols = m.symbols ++ s ∷ [] })

  abbrev pub record_resolution : SourceSpan → ℕ → SemanticModel
  record_resolution identifier id = record m {
    identifier_resolutions = emplace identifier id m.identifier_resolutions;
  }

  abbrev pub record_declaration : SourceSpan → ℕ → SemanticModel
  record_declaration identifier id = record m {
    declaration_symbols = emplace identifier id m.declaration_symbols;
  }

  abbrev pub add_error : SemanticError → SemanticModel
  add_error e = record m { errors = m.errors ++ e ∷ [] }

-- The loops of `internArray` and `internSlice`: the index of the entry, or of the one to be added
-- behind the last.
abbrev pub array_index : List ArrayTypeInfo → ValueType → ℕ → ℕ
array_index arrays element n =
    index_where (λ x. types_equal x.element_type element && x.length == n) arrays

abbrev pub slice_index : List SliceTypeInfo → ValueType → ℕ
slice_index slices element = index_where (λ x. types_equal x.element_type element) slices

abbrev pub compound : TypeKind → ℕ → ValueType
compound kind id = record { kind = kind; compound_id = id }

unfoldable pub intern_array : ValueType → ℕ → SemanticModel → ValueType × SemanticModel
intern_array element n m =
    let index = array_index m.array_types element n in
    let info : ArrayTypeInfo = record { element_type = element; length = n } in
    (
      compound TypeKind.array index,
      if index == length m.array_types
          then record m { array_types = m.array_types ++ info ∷ [] }
          else m,
    )

unfoldable pub intern_slice : ValueType → SemanticModel → ValueType × SemanticModel
intern_slice element m =
    let index = slice_index m.slice_types element in
    let info : SliceTypeInfo = record { element_type = element } in
    (
      compound TypeKind.slice index,
      if index == length m.slice_types
          then record m { slice_types = m.slice_types ++ info ∷ [] }
          else m,
    )
