-- ===== src/Semantic/Shapes.antt =====
-- What a type stands for: a structure with no ids. The arrays and slices of a model are a table of
-- their own, in which an id is a place.
pub mod Interning
pub mod Tables
pub mod Spelling
use kai_cc.Base.{ℕ, ◌<◌, List, some, get_elem?, ◌≡◌}
use kai_cc.Semantic.Model.{ArrayTypeInfo, SliceTypeInfo, SemanticModel}
use kai_cc.Semantic.Types.{ValueType, TypeKind, kind_value, simple}

pub data Shape : Type 0 where
  plain : TypeKind → Shape
  array : Shape → ℕ → Shape
  slice : Shape → Shape

-- Neither unresolved, erroneous, an array nor a slice.
abbrev pub IsPlain : TypeKind → Type 0
IsPlain k = (1 < kind_value k) × (kind_value k < 16)

pub data Denotes (arrays : List ArrayTypeInfo) (slices : List SliceTypeInfo)
    : ValueType → Shape → Type 0 where
  plain :
      {t : ValueType} (k : TypeKind)
      → IsPlain k
      → t ≡ simple k
      → Denotes arrays slices t (Shape.plain k)
  array :
      {t : ValueType} {n : ℕ} {s : Shape} (info : ArrayTypeInfo)
      → t.kind ≡ TypeKind.array
      → get_elem? arrays t.compound_id ≡ some info
      → info.length ≡ n
      → Denotes arrays slices info.element_type s
      → Denotes arrays slices t (Shape.array s n)
  slice :
      {t : ValueType} {s : Shape} (info : SliceTypeInfo)
      → t.kind ≡ TypeKind.slice
      → get_elem? slices t.compound_id ≡ some info
      → Denotes arrays slices info.element_type s
      → Denotes arrays slices t (Shape.slice s)

-- A type of a model has a structure.
abbrev pub HasShape : SemanticModel → ValueType → Type 0
HasShape m t = (s : Shape) × Denotes m.array_types m.slice_types t s

-- No entry stands twice, and every element has a structure.
pub record IsCanonical (arrays : List ArrayTypeInfo) (slices : List SliceTypeInfo) : Type 0 where
  pub arrays_distinct :
      (i j : ℕ) (x : ArrayTypeInfo)
      → get_elem? arrays i ≡ some x
      → get_elem? arrays j ≡ some x
      → i ≡ j
  pub slices_distinct :
      (i j : ℕ) (x : SliceTypeInfo)
      → get_elem? slices i ≡ some x
      → get_elem? slices j ≡ some x
      → i ≡ j
  pub arrays_known :
      (i : ℕ) (x : ArrayTypeInfo)
      → get_elem? arrays i ≡ some x
      → (s : Shape) × Denotes arrays slices x.element_type s
  pub slices_known :
      (i : ℕ) (x : SliceTypeInfo)
      → get_elem? slices i ≡ some x
      → (s : Shape) × Denotes arrays slices x.element_type s
