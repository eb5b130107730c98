-- ===== src/Semantic/Shapes/Tables.antt =====
-- How a model grows: `internArray` and `internSlice` of compiler/include/kai/semantic/
-- SemanticModel.hpp on its tables.
use kai_cc.Base.{
  ℕ, ◌&&◌, ◌++◌, List, [], ◌∷◌, false, some, get_elem?, length, ◌≡◌, ◌≢◌, inl, inr, refl, sym,
  subst, ap, ◌∙◌, arith, ◌==◌, ==_iff, get_elem?-append, get_elem?-last, get_elem?-lt,
  get_elem?-cases, index_where_lem,
}
use kai_cc.Semantic.Model.{
  ArrayTypeInfo, SliceTypeInfo, SemanticModel, array_index, slice_index, intern_array, intern_slice,
}
use kai_cc.Semantic.Shapes.Interning.{types_equal_iff}
use kai_cc.Semantic.Shapes.{Shape, Denotes, HasShape, IsCanonical}
use kai_cc.Semantic.Types.{ValueType, types_equal}

-- Whatever the one list has stands at its place in the other.
abbrev pub Stays : {A : Type 0} → List A → List A → Type 0
Stays {A} xs ys = (i : ℕ) (x : A) → get_elem? xs i ≡ some x → get_elem? ys i ≡ some x

-- Symbols and types keep their ids.
pub record Grows (m m' : SemanticModel) : Type 0 where
  pub symbols_stay : Stays m.symbols m'.symbols
  pub arrays_stay : Stays m.array_types m'.array_types
  pub slices_stay : Stays m.slice_types m'.slice_types

pub Grows-refl : (m : SemanticModel) → Grows m m
Grows-refl m = record {
  symbols_stay = λ i x e. e;
  arrays_stay = λ i x e. e;
  slices_stay = λ i x e. e;
}

pub Grows-trans : {m m' m'' : SemanticModel} → Grows m m' → Grows m' m'' → Grows m m''
Grows-trans g h = record {
  symbols_stay = λ i x e. h.symbols_stay i x (g.symbols_stay i x e);
  arrays_stay = λ i x e. h.arrays_stay i x (g.arrays_stay i x e);
  slices_stay = λ i x e. h.slices_stay i x (g.slices_stay i x e);
}

pub Denotes-grow :
    {arrays arrays' : List ArrayTypeInfo} {slices slices' : List SliceTypeInfo} {t : ValueType}
    {s : Shape}
    → Stays arrays arrays'
    → Stays slices slices'
    → Denotes arrays slices t s
    → Denotes arrays' slices' t s
Denotes-grow ha hs (Denotes.plain k p e) = Denotes.plain k p e
Denotes-grow ha hs (Denotes.array x f at n d) =
    Denotes.array x f (ha _ _ at) n (Denotes-grow ha hs d)
Denotes-grow ha hs (Denotes.slice x f at d) = Denotes.slice x f (hs _ _ at) (Denotes-grow ha hs d)

pub HasShape-grow :
    {m m' : SemanticModel} {t : ValueType} → Grows m m' → HasShape m t → HasShape m' t
HasShape-grow g (s, d) = (s, Denotes-grow g.arrays_stay g.slices_stay d)

-- A table with one more entry behind it.
pub Stays-append : {A : Type 0} (xs ys : List A) → Stays xs (xs ++ ys)
Stays-append xs ys i x e = get_elem?-append xs ys i e

distinct-append :
    {A : Type 0} (xs : List A) (y : A)
    → ((i j : ℕ) (x : A) → get_elem? xs i ≡ some x → get_elem? xs j ≡ some x → i ≡ j)
    → ((i : ℕ) → get_elem? xs i ≢ some y)
    → (i j : ℕ) (x : A) → get_elem? (xs ++ y ∷ []) i ≡ some x
    → get_elem? (xs ++ y ∷ []) j ≡ some x
    → i ≡ j
distinct-append xs y distinct new i j x e f = elim (get_elem?-cases xs y i e) [
  | inl h ↦ elim (get_elem?-cases xs y j f) [
    | inl k ↦ distinct i j x h k
    | inr (k, at) ↦ absurd (new i (h ∙ ap some (sym at)))
  ]
  | inr (h, at) ↦ elim (get_elem?-cases xs y j f) [
    | inl k ↦ absurd (new j (k ∙ ap some (sym at)))
    | inr (k, _) ↦ h ∙ sym k
  ]
]

known-append :
    {A : Type 0} (P : A → Type 0) (xs : List A) (y : A)
    → ((i : ℕ) (x : A) → get_elem? xs i ≡ some x → P x)
    → P y
    → (i : ℕ) (x : A) → get_elem? (xs ++ y ∷ []) i ≡ some x
    → P x
known-append P xs y known p i x e = elim (get_elem?-cases xs y i e) [
  | inl h ↦ known i x h
  | inr (_, at) ↦ subst P at p
]

-- From `m` to `m'` the model grew, `m'` is canonical, and there `t` has the structure `s`.
pub record Interned (m m' : SemanticModel) (t : ValueType) (s : Shape) : Type 0 where
  pub grows : Grows m m'
  pub is_canonical : IsCanonical m'.array_types m'.slice_types
  pub denotes : Denotes m'.array_types m'.slice_types t s

fails_not : (t : ValueType) (n : ℕ) → (types_equal t t && n == n) ≢ false
fails_not t n e =
    let one = (types_equal_iff t t).1 refl in
    let two = (==_iff n n).1 refl in cc (rw (one, two) at e)

module _ (m : SemanticModel) (c : IsCanonical m.array_types m.slice_types) (t : ValueType)
    (s : Shape) (d : Denotes m.array_types m.slice_types t s) where
  module _ (n : ℕ) where
    abbrev new_array : ArrayTypeInfo
    new_array = record { element_type = t; length = n }

    abbrev arrays_with : List ArrayTypeInfo
    arrays_with = m.array_types ++ new_array ∷ []

    grow :
        {u : ValueType} {r : Shape}
        → Denotes m.array_types m.slice_types u r
        → Denotes arrays_with m.slice_types u r
    grow e = Denotes-grow (Stays-append m.array_types (new_array ∷ [])) (λ i x h. h) e

    arrays-IsCanonical :
        ((i : ℕ) → get_elem? m.array_types i ≢ some new_array)
        → IsCanonical arrays_with m.slice_types
    arrays-IsCanonical new = record {
      arrays_distinct = distinct-append m.array_types new_array c.arrays_distinct new;
      slices_distinct = c.slices_distinct;
      arrays_known =
          known-append (λ x. (r : Shape) × Denotes arrays_with m.slice_types x.element_type r)
            m.array_types new_array (λ i x e. let (r, k) = c.arrays_known i x e in (r, grow k))
            (s, grow d);
      slices_known = λ i x e. let (r, k) = c.slices_known i x e in (r, grow k);
    }

    pub intern_array-Interned :
        Interned m (intern_array t n m).1 (intern_array t n m).0 (Shape.array s n)
    unfolding intern_array
    intern_array-Interned =
        elim (index_where_lem (λ x. types_equal x.element_type t && x.length == n) m.array_types) [
          | inl (x, at, e) ↦
              let inside = get_elem?-lt m.array_types (array_index m.array_types t n) at in
              let element = (types_equal_iff x.element_type t).0 (ground arith) in
              let other : array_index m.array_types t n == length m.array_types ≡ false =
                ground arith in
              rw other (record {
                grows = Grows-refl m;
                is_canonical = c;
                denotes =
                    Denotes.array x refl at (ground arith)
                      (subst (λ u. Denotes m.array_types m.slice_types u s) (sym element) d);
              })
          | inr (past, fails) ↦
              let new : (i : ℕ) → get_elem? m.array_types i ≢ some new_array =
                λ i at. absurd (fails_not t n (fails i new_array at)) in
              let grown = Stays-append m.array_types (new_array ∷ []) in
              rw past (
                rw ((==_iff (length m.array_types) (length m.array_types)).1 refl) (record {
                  grows = record {
                    symbols_stay = λ i x e. e;
                    arrays_stay = grown;
                    slices_stay = λ i x e. e;
                  };
                  is_canonical = arrays-IsCanonical new;
                  denotes =
                      Denotes.array new_array refl (get_elem?-last m.array_types new_array) refl
                        (Denotes-grow grown (λ i x e. e) d);
                }))
        ]

  abbrev new_slice : SliceTypeInfo
  new_slice = record { element_type = t }

  abbrev slices_with : List SliceTypeInfo
  slices_with = m.slice_types ++ new_slice ∷ []

  grow_slice :
      {u : ValueType} {r : Shape}
      → Denotes m.array_types m.slice_types u r
      → Denotes m.array_types slices_with u r
  grow_slice e = Denotes-grow (λ i x h. h) (Stays-append m.slice_types (new_slice ∷ [])) e

  slices-IsCanonical :
      ((i : ℕ) → get_elem? m.slice_types i ≢ some new_slice) → IsCanonical m.array_types slices_with
  slices-IsCanonical new = record {
    arrays_distinct = c.arrays_distinct;
    slices_distinct = distinct-append m.slice_types new_slice c.slices_distinct new;
    arrays_known = λ i x e. let (r, k) = c.arrays_known i x e in (r, grow_slice k);
    slices_known =
        known-append (λ x. (r : Shape) × Denotes m.array_types slices_with x.element_type r)
          m.slice_types new_slice (λ i x e. let (r, k) = c.slices_known i x e in (r, grow_slice k))
          (s, grow_slice d);
  }

  pub intern_slice-Interned : Interned m (intern_slice t m).1 (intern_slice t m).0 (Shape.slice s)
  unfolding intern_slice
  intern_slice-Interned = elim (index_where_lem (λ x. types_equal x.element_type t) m.slice_types) [
    | inl (x, at, e) ↦
        let inside = get_elem?-lt m.slice_types (slice_index m.slice_types t) at in
        let element = (types_equal_iff x.element_type t).0 e in
        let other : slice_index m.slice_types t == length m.slice_types ≡ false = ground arith in
        rw other (record {
          grows = Grows-refl m;
          is_canonical = c;
          denotes =
              Denotes.slice x refl at
                (subst (λ u. Denotes m.array_types m.slice_types u s) (sym element) d);
        })
    | inr (past, fails) ↦
        let new : (i : ℕ) → get_elem? m.slice_types i ≢ some new_slice =
          λ i at. cc (fails i new_slice at, (types_equal_iff t t).1 refl) in
        let grown = Stays-append m.slice_types (new_slice ∷ []) in
        rw past (
          rw ((==_iff (length m.slice_types) (length m.slice_types)).1 refl) (record {
            grows = record {
              symbols_stay = λ i x e. e;
              arrays_stay = λ i x e. e;
              slices_stay = grown;
            };
            is_canonical = slices-IsCanonical new;
            denotes =
                Denotes.slice new_slice refl (get_elem?-last m.slice_types new_slice)
                  (Denotes-grow (λ i x e. e) grown d);
          }))
  ]
