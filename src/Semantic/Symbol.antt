-- ===== src/Semantic/Symbol.antt =====
-- compiler/include/kai/semantic/Symbol.hpp: declared names. The id of a symbol is its number.
use kai_cc.Base.{Bool, Option, List, Bytes}
use kai_cc.Semantic.Types.{ValueType}
use kai_cc.Source.Location.{SourceSpan}

pub data SymbolKind : Type 0 where
  function parameter local builtin : SymbolKind

pub record FunctionSignature : Type 0 where
  pub parameter_types : List ValueType
  pub return_type : ValueType

pub record Symbol : Type 0 where
  pub kind : SymbolKind
  pub name : Bytes
  pub declared_at : Option SourceSpan
  pub is_mutable : Bool
  pub type : ValueType
  pub signature : Option FunctionSignature
