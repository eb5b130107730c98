-- ===== src/Semantic/Types.antt =====
-- compiler/include/kai/semantic/Type.hpp: a type is a kind, with the id of a compound type for an
-- array or a slice.
use kai_cc.Base.{ℕ, ◌-◌, ◌^◌, Bool, ◌&&◌, ◌||◌, ◌==◌}

pub data TypeKind : Type 0 where
  unresolved error unit i8 i16 i32 i64 u8 u16 u32 u64 f32 f64 bool char str array slice : TypeKind

-- The enumerator's value.
unfoldable pub kind_value : TypeKind → ℕ
kind_value TypeKind.unresolved = 0
kind_value TypeKind.error = 1
kind_value TypeKind.unit = 2
kind_value TypeKind.i8 = 3
kind_value TypeKind.i16 = 4
kind_value TypeKind.i32 = 5
kind_value TypeKind.i64 = 6
kind_value TypeKind.u8 = 7
kind_value TypeKind.u16 = 8
kind_value TypeKind.u32 = 9
kind_value TypeKind.u64 = 10
kind_value TypeKind.f32 = 11
kind_value TypeKind.f64 = 12
kind_value TypeKind.bool = 13
kind_value TypeKind.char = 14
kind_value TypeKind.str = 15
kind_value TypeKind.array = 16
kind_value TypeKind.slice = 17

-- `Type`; `compound_id` is the invalid id for all but arrays and slices.
pub record ValueType : Type 0 where
  pub kind : TypeKind
  pub compound_id : ℕ

abbrev pub invalid_compound_id : ℕ
invalid_compound_id = 2 ^ 32 - 1

-- The factories of the kinds that need no compound type.
abbrev pub simple : TypeKind → ValueType
simple k = record { kind = k; compound_id = invalid_compound_id }

unfoldable pub types_equal : ValueType → ValueType → Bool
types_equal a b = kind_value a.kind == kind_value b.kind && a.compound_id == b.compound_id

unfoldable pub is_error : ValueType → Bool
is_error t = kind_value t.kind == kind_value TypeKind.error

unfoldable pub is_unresolved : ValueType → Bool
is_unresolved t = kind_value t.kind == kind_value TypeKind.unresolved

-- `kind_ ==`.
abbrev pub is_kind : TypeKind → ValueType → Bool
is_kind k t = kind_value t.kind == kind_value k

unfoldable pub is_signed_integer : ValueType → Bool
is_signed_integer t =
    is_kind TypeKind.i8 t
    || is_kind TypeKind.i16 t
    || is_kind TypeKind.i32 t
    || is_kind TypeKind.i64 t

unfoldable pub is_unsigned_integer : ValueType → Bool
is_unsigned_integer t =
    is_kind TypeKind.u8 t
    || is_kind TypeKind.u16 t
    || is_kind TypeKind.u32 t
    || is_kind TypeKind.u64 t

unfoldable pub is_integer : ValueType → Bool
is_integer t = is_signed_integer t || is_unsigned_integer t

unfoldable pub is_float : ValueType → Bool
is_float t = is_kind TypeKind.f32 t || is_kind TypeKind.f64 t

unfoldable pub is_numeric : ValueType → Bool
is_numeric t = is_integer t || is_float t

abbrev pub is_bool : ValueType → Bool
is_bool t = is_kind TypeKind.bool t

abbrev pub is_char : ValueType → Bool
is_char t = is_kind TypeKind.char t

abbrev pub is_str : ValueType → Bool
is_str t = is_kind TypeKind.str t

abbrev pub is_array : ValueType → Bool
is_array t = is_kind TypeKind.array t

abbrev pub is_slice : ValueType → Bool
is_slice t = is_kind TypeKind.slice t
