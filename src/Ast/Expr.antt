-- ===== src/Ast/Expr.antt =====
-- compiler/include/kai/ast/Expr.hpp, and `Identifier` of Node.hpp.
use kai_cc.Source.Location.{SourceSpan}

pub record Identifier : Type 0 where
  pub span : SourceSpan

pub data LiteralKind : Type 0 where
  integer float string char bool : LiteralKind

pub data UnaryOperator : Type 0 where
  negate not_op ref ref_mut : UnaryOperator

pub data BinaryOperator : Type 0 where
  or_op and_op eq_op not_equal lt_op less_equal gt_op greater_equal range : BinaryOperator
  add subtract multiply divide modulo : BinaryOperator

-- The last field of each constructor is the node's span; an operator's span stands in front of it
-- or behind the operator.
mutual
  pub data Expr : Type 0 where
    literal : LiteralKind → SourceSpan → Expr
    identifier : Identifier → SourceSpan → Expr
    call : Expr → Exprs → SourceSpan → Expr
    paren : Expr → SourceSpan → Expr
    unary : UnaryOperator → SourceSpan → Expr → SourceSpan → Expr
    binary : BinaryOperator → SourceSpan → Expr → Expr → SourceSpan → Expr
    assignment : Expr → SourceSpan → Expr → SourceSpan → Expr
    array_literal : Exprs → SourceSpan → Expr
    index : Expr → Expr → SourceSpan → Expr
    member : Expr → Identifier → SourceSpan → Expr
    unit : SourceSpan → Expr
    error_propagation : Expr → SourceSpan → SourceSpan → Expr

  pub data Exprs : Type 0 where
    nil : Exprs
    cons : Expr → Exprs → Exprs

-- `span()` of `NodeBase`.
abbrev pub expr_span : Expr → SourceSpan
expr_span (Expr.literal _ s) = s
expr_span (Expr.identifier _ s) = s
expr_span (Expr.call _ _ s) = s
expr_span (Expr.paren _ s) = s
expr_span (Expr.unary _ _ _ s) = s
expr_span (Expr.binary _ _ _ _ s) = s
expr_span (Expr.assignment _ _ _ s) = s
expr_span (Expr.array_literal _ s) = s
expr_span (Expr.index _ _ s) = s
expr_span (Expr.member _ _ s) = s
expr_span (Expr.unit s) = s
expr_span (Expr.error_propagation _ _ s) = s
