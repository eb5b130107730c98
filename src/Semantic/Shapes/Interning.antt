-- ===== src/Semantic/Shapes/Interning.antt =====
-- Equality of types, as values and as structures.
use kai_cc.Base.{
  List, [], ◌∷◌, true, some, some-injective, get_elem?, get_or, ◌≡◌, ◌≢◌, ◌↔◌, refl, sym, ap, ◌∙◌,
  arith,
}
use kai_cc.Semantic.Model.{ArrayTypeInfo, SliceTypeInfo}
use kai_cc.Semantic.Shapes.{Shape, IsPlain, Denotes, IsCanonical}
use kai_cc.Semantic.Types.{ValueType, TypeKind, kind_value, simple, types_equal}

abbrev kinds : List TypeKind
kinds =
    TypeKind.unresolved ∷ TypeKind.error ∷ TypeKind.unit ∷ TypeKind.i8 ∷ TypeKind.i16 ∷ TypeKind.i32
    ∷ TypeKind.i64 ∷ TypeKind.u8 ∷ TypeKind.u16 ∷ TypeKind.u32 ∷ TypeKind.u64 ∷ TypeKind.f32
    ∷ TypeKind.f64 ∷ TypeKind.bool ∷ TypeKind.char ∷ TypeKind.str ∷ TypeKind.array ∷ TypeKind.slice
    ∷ []

kind_of_value : (k : TypeKind) → get_or kinds (kind_value k) TypeKind.error ≡ k
unfolding kind_value
kind_of_value TypeKind.unit = refl
kind_of_value _ = refl

pub kind_value-injective : (a b : TypeKind) → kind_value a ≡ kind_value b → a ≡ b
kind_value-injective a b e =
    sym (kind_of_value a) ∙ ap (λ v. get_or kinds v TypeKind.error) e ∙ kind_of_value b

pub types_equal_iff : (a b : ValueType) → (types_equal a b ≡ true) ↔ (a ≡ b)
unfolding types_equal
types_equal_iff a b = (λ e. ground (arith, kind_value-injective a.kind b.kind), λ e. ground arith)

array-not_plain : (k : TypeKind) → IsPlain k → k ≢ TypeKind.array
unfolding kind_value
array-not_plain k h e = absurd (omega (arith, ap kind_value e, h))

slice-not_plain : (k : TypeKind) → IsPlain k → k ≢ TypeKind.slice
unfolding kind_value
slice-not_plain k h e = absurd (omega (arith, ap kind_value e, h))

module _ {arrays : List ArrayTypeInfo} {slices : List SliceTypeInfo} where
  -- A type stands for one structure.
  pub Denotes-unique :
      {t u : ValueType} {s s' : Shape}
      → Denotes arrays slices t s
      → Denotes arrays slices u s'
      → t ≡ u
      → s ≡ s'
  Denotes-unique (Denotes.plain k p e) (Denotes.plain l q f) h =
      ap Shape.plain (ap (λ t. t.kind) (sym e ∙ h ∙ f))
  Denotes-unique (Denotes.plain k p e) (Denotes.array info f _ _ _) h =
      absurd (array-not_plain k p (ap (λ t. t.kind) (sym e ∙ h) ∙ f))
  Denotes-unique (Denotes.plain k p e) (Denotes.slice info f _ _) h =
      absurd (slice-not_plain k p (ap (λ t. t.kind) (sym e ∙ h) ∙ f))
  Denotes-unique (Denotes.array info f _ _ _) (Denotes.plain k p e) h =
      absurd (array-not_plain k p (ap (λ t. t.kind) (sym e ∙ sym h) ∙ f))
  Denotes-unique (Denotes.slice info f _ _) (Denotes.plain k p e) h =
      absurd (slice-not_plain k p (ap (λ t. t.kind) (sym e ∙ sym h) ∙ f))
  Denotes-unique (Denotes.array _ f _ _ _) (Denotes.slice _ g _ _) h = cc (f, g, ap (λ t. t.kind) h)
  Denotes-unique (Denotes.slice _ f _ _) (Denotes.array _ g _ _ _) h = cc (f, g, ap (λ t. t.kind) h)
  Denotes-unique (Denotes.array x f at n d) (Denotes.array y g at' n' d') h =
      let same : x ≡ y =
        some-injective _ _ (sym at ∙ ap (λ t. get_elem? arrays t.compound_id) h ∙ at') in
      let element = Denotes-unique d d' (ap (λ i. i.element_type) same) in
      let lengths = sym n ∙ ap (λ i. i.length) same ∙ n' in cc (element, lengths)
  Denotes-unique (Denotes.slice x f at d) (Denotes.slice y g at' d') h =
      let same : x ≡ y =
        some-injective _ _ (sym at ∙ ap (λ t. get_elem? slices t.compound_id) h ∙ at') in
      ap Shape.slice (Denotes-unique d d' (ap (λ i. i.element_type) same))

  -- A structure has one type.
  pub Denotes-injective :
      {t u : ValueType} {s s' : Shape}
      → IsCanonical arrays slices
      → Denotes arrays slices t s
      → Denotes arrays slices u s'
      → s ≡ s'
      → t ≡ u
  Denotes-injective c (Denotes.plain k p e) (Denotes.plain l q f) h =
      let same : k ≡ l = cc h in e ∙ ap simple same ∙ sym f
  Denotes-injective c (Denotes.plain k p e) (Denotes.array _ _ _ _ _) h = cc h
  Denotes-injective c (Denotes.plain k p e) (Denotes.slice _ _ _ _) h = cc h
  Denotes-injective c (Denotes.array _ _ _ _ _) (Denotes.plain k p e) h = cc h
  Denotes-injective c (Denotes.slice _ _ _ _) (Denotes.plain k p e) h = cc h
  Denotes-injective c (Denotes.array _ _ _ _ _) (Denotes.slice _ _ _ _) h = cc h
  Denotes-injective c (Denotes.slice _ _ _ _) (Denotes.array _ _ _ _ _) h = cc h
  Denotes-injective {t} {u} c (Denotes.array x f at n d) (Denotes.array y g at' n' d') h =
      let element = Denotes-injective c d d' (cc h) in
      let info : x ≡ y = cc (element, n, n', h) in
      let place = c.arrays_distinct t.compound_id u.compound_id y (at ∙ ap some info) at' in
      cc (f, g, place)
  Denotes-injective {t} {u} c (Denotes.slice x f at d) (Denotes.slice y g at' d') h =
      let element = Denotes-injective c d d' (cc h) in
      let info : x ≡ y = cc element in
      let place = c.slices_distinct t.compound_id u.compound_id y (at ∙ ap some info) at' in
      cc (f, g, place)

-- In canonical tables two types that denote structures are equal for the code, by kind and id,
-- if and only if their structures are the same.
pub types_equal-Denotes :
    {arrays : List ArrayTypeInfo} {slices : List SliceTypeInfo} {t u : ValueType} {s s' : Shape}
    → IsCanonical arrays slices
    → Denotes arrays slices t s
    → Denotes arrays slices u s'
    → (types_equal t u ≡ true) ↔ (s ≡ s')
types_equal-Denotes {t} {u} c d d' = (
  (λ e. Denotes-unique d d' ((types_equal_iff t u).0 e)),
  (λ e. (types_equal_iff t u).1 (Denotes-injective c d d' e)),
)
