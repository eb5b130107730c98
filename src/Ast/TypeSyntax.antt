-- ===== src/Ast/TypeSyntax.antt =====
-- compiler/include/kai/ast/TypeSyntax.hpp.
use kai_cc.Ast.Expr.{Expr, Identifier}
use kai_cc.Source.Location.{SourceSpan}

pub data ReferenceMutability : Type 0 where
  immutable mutable : ReferenceMutability

mutual
  pub data TypeSyntax : Type 0 where
    named : Identifier → SourceSpan → TypeSyntax
    reference : ReferenceMutability → SourceSpan → TypeSyntax → SourceSpan → TypeSyntax
    array : TypeSyntax → Expr → SourceSpan → TypeSyntax
    slice : TypeSyntax → SourceSpan → TypeSyntax
    unit : SourceSpan → TypeSyntax
    generic : Identifier → TypeSyntaxes → SourceSpan → TypeSyntax

  pub data TypeSyntaxes : Type 0 where
    nil : TypeSyntaxes
    cons : TypeSyntax → TypeSyntaxes → TypeSyntaxes

abbrev pub type_span : TypeSyntax → SourceSpan
type_span (TypeSyntax.named _ s) = s
type_span (TypeSyntax.reference _ _ _ s) = s
type_span (TypeSyntax.array _ _ s) = s
type_span (TypeSyntax.slice _ s) = s
type_span (TypeSyntax.unit s) = s
type_span (TypeSyntax.generic _ _ s) = s
