-- ===== src/Semantic/Checker/Typed/Arrays.antt =====
-- Array literals and indexing in compiler/src/semantic/TypeChecker.cpp, and the types in a model.
use kai_cc.Ast.Expr.{Expr, Exprs}
use kai_cc.Base.{
  ℕ, suc, Bool, true, false, not, ◌&&◌, ◌||◌, Option, none, some, List, [], ◌∷◌, ◌≡◌, inl, inr,
  arith, length, Option-cases, Bool-cases,
}
use kai_cc.Semantic.Checker.Arrays.{
  expected_element_type, check_empty_array, any_type, first_mismatch, array_elements_result,
  array_literal_result, ConstantIndexValue, out_of_bounds, provably_negative, index_result,
  anchor_place, anchor_type, check_array_literal,
}
use kai_cc.Semantic.Checker.Literals.{usable_context}
use kai_cc.Semantic.Checker.Typed.Rules.{
  keep, keep_error, keep_unresolved, fails-Keeps, if-Keeps, after-Keeps, intern_array-Keeps,
  array_element_type-Concrete, slice_element_type-Concrete,
}
use kai_cc.Semantic.Checker.Typed.{
  Tables, tables, Concrete, Known, AllKnown, KnownOption, Typed, Wide, Wide-trans, Keeps,
}
use kai_cc.Semantic.Model.{SemanticModel}
use kai_cc.Semantic.Types.{
  ValueType, kind_value, is_error, is_unresolved, is_integer, is_array, is_slice,
}
use kai_cc.Semantic.Updates.{array_length}
use kai_cc.Source.Location.{SourceSpan}

abbrev pub ConcreteOption : Tables → Option ValueType → Type 0
ConcreteOption t none = Unit
ConcreteOption t (some v) = Concrete t v

pub ConcreteOption-Known :
    (t : Tables) (v : Option ValueType) → ConcreteOption t v → KnownOption t v
ConcreteOption-Known t none k = tt
ConcreteOption-Known t (some v) k = inl k

pub Known-Concrete :
    (t : Tables) (v : ValueType)
    → Known t v
    → is_error v ≡ false
    → is_unresolved v ≡ false
    → Concrete t v
unfolding is_error is_unresolved kind_value
Known-Concrete t v (inl k) e u = k
Known-Concrete t v (inr (inl f)) e u = cc (rw f at e)
Known-Concrete t v (inr (inr f)) e u = cc (rw f at u)

pub expected_element_type-Concrete :
    (expected : Option ValueType) (m : SemanticModel)
    → KnownOption (tables m) expected
    → ConcreteOption (tables m) (expected_element_type expected m)
unfolding expected_element_type usable_context
expected_element_type-Concrete none m k = tt
expected_element_type-Concrete (some v) m k = elim (Bool-cases (is_unresolved v || is_error v)) [
  | inl unusable ↦ rw (unusable, expected_element_type) tt
  | inr usable ↦ elim (Bool-cases (is_array v)) [
    | inl array ↦
        rw (usable, array, expected_element_type) (array_element_type-Concrete v m k array)
    | inr other ↦ rw (usable, other, expected_element_type) tt
  ]
]

check_empty_array-Keeps :
    (expected : Option ValueType) (span : SourceSpan) (m : SemanticModel)
    → Typed m
    → ConcreteOption (tables m) expected
    → Keeps (tables m) (check_empty_array expected span m)
unfolding check_empty_array
check_empty_array-Keeps none span m h k = fails-Keeps _ m h
check_empty_array-Keeps (some v) span m h k = intern_array-Keeps v 0 m h k

array_elements_result-Keeps :
    (v : ValueType) (vs : List ValueType) (e : Expr) (es : Exprs) (m : SemanticModel)
    → Typed m
    → Concrete (tables m) v
    → Keeps (tables m) (array_elements_result v vs e es m)
unfolding array_elements_result
array_elements_result-Keeps v vs e es m h k = elim (Option-cases (first_mismatch v vs es)) [
  | inl same ↦ rw (same, array_elements_result) (intern_array-Keeps v (suc (length vs)) m h k)
  | inr (x, other) ↦ rw (other, array_elements_result) (fails-Keeps _ m h)
]

first-none :
    (test : ValueType → Bool) (v : ValueType) (vs : List ValueType)
    → any_type test (v ∷ vs) ≡ false
    → test v ≡ false
unfolding any_type
first-none test v vs e = ground arith

pub array_literal_result-Keeps :
    (vs : List ValueType) (es : Exprs) (m : SemanticModel)
    → Typed m
    → AllKnown (tables m) vs
    → Keeps (tables m) (array_literal_result vs es m)
unfolding array_literal_result
array_literal_result-Keeps [] Exprs.nil m h k = keep_error m h
array_literal_result-Keeps [] (Exprs.cons e es) m h k = keep_error m h
array_literal_result-Keeps (v ∷ vs) Exprs.nil m h k = keep_error m h
array_literal_result-Keeps (v ∷ vs) (Exprs.cons e es) m h k =
    if-Keeps (any_type is_error (v ∷ vs)) (λ _. keep_error m h)
      (λ good.
        if-Keeps (any_type is_unresolved (v ∷ vs)) (λ _. keep_unresolved m h)
          (λ resolved. array_elements_result-Keeps v vs e es m h (
            Known-Concrete (tables m) v k.0 (first-none is_error v vs good)
              (first-none is_unresolved v vs resolved))))

-- Types of elements, and a model with tables that know them.
pub record KeepsAll (t : Tables) (r : List ValueType × SemanticModel) : Type 0 where
  pub wide : Wide t (tables r.1)
  pub is_typed : Typed r.1
  pub all_known : AllKnown (tables r.1) r.0

pub record KeepsAnchor (t : Tables) (r : Option (ℕ × ValueType) × SemanticModel) : Type 0 where
  pub wide : Wide t (tables r.1)
  pub is_typed : Typed r.1
  pub anchor_known : KnownOption (tables r.1) (anchor_type r.0)

pub check_array_literal-Keeps :
    (es : Exprs) (span : SourceSpan) (expected : Option ValueType)
    (anchor : SemanticModel → Option (ℕ × ValueType) × SemanticModel)
    (elements : Option ℕ → Option ValueType → SemanticModel → List ValueType × SemanticModel)
    (m : SemanticModel)
    → ((n : SemanticModel) → Typed n → KeepsAnchor (tables n) (anchor n))
    → ((skip : Option ℕ) (c : Option ValueType) (n : SemanticModel)
        → Typed n
        → KnownOption (tables n) c
        → KeepsAll (tables n) (elements skip c n))
    → Typed m
    → ConcreteOption (tables m) expected
    → Keeps (tables m) (check_array_literal es span expected anchor elements m)
unfolding check_array_literal
check_array_literal-Keeps Exprs.nil span expected anchor elements m sa se h k =
    check_empty_array-Keeps expected span m h k
check_array_literal-Keeps (Exprs.cons e es) span (some v) anchor elements m sa se h k =
    let all = se none (some v) m h (inl k) in
    after-Keeps all.wide
      (array_literal_result-Keeps _ (Exprs.cons e es) _ all.is_typed all.all_known)
check_array_literal-Keeps (Exprs.cons e es) span none anchor elements m sa se h k =
    let a = sa m h in
    let (found, m1) = anchor m in
    let all = se (anchor_place found) (anchor_type found) m1 a.is_typed a.anchor_known in
    after-Keeps (Wide-trans a.wide all.wide)
      (array_literal_result-Keeps _ (Exprs.cons e es) _ all.is_typed all.all_known)

is_slice-of : {a b : Bool} → a ≡ false → (not a && not b) ≡ false → b ≡ true
is_slice-of {a} {b} e f = ground arith

pub index_result-Keeps :
    (constant : Option ConstantIndexValue) (object_span index_span : SourceSpan)
    (object index : ValueType) (m : SemanticModel)
    → Typed m
    → Known (tables m) object
    → Keeps (tables m) (index_result constant object_span index_span object index m)
unfolding index_result
index_result-Keeps constant object_span index_span object index m h k =
    if-Keeps (is_error object || is_error index) (λ _. keep_error m h)
      (λ _.
        if-Keeps (is_unresolved object || is_unresolved index) (λ _. keep_unresolved m h)
          (λ _.
            if-Keeps (not (is_array object) && not (is_slice object)) (λ _. fails-Keeps _ m h)
              (λ place.
                if-Keeps (not (is_integer index)) (λ _. fails-Keeps _ m h)
                  (λ _.
                    if-Keeps (is_array object)
                      (λ array.
                        if-Keeps (out_of_bounds constant (array_length m object))
                          (λ _. fails-Keeps _ m h)
                          (λ _. keep _ m h (inl (array_element_type-Concrete object m k array))))
                      (λ other.
                        if-Keeps (provably_negative constant) (λ _. fails-Keeps _ m h)
                          (λ _. keep _ m h (
                            inl (
                              slice_element_type-Concrete object m k
                                (is_slice-of other place)))))))))
