-- ===== src/Parser/Layout.antt =====
-- What a parsed tree looks like: the spans of a node's parts stand in order inside the node's own
-- span, and the operators nest by the precedence of GRAMMAR.md.
use kai_cc.Parser.Input.{OpenFile}
use kai_cc.Ast.Expr.{Expr, Exprs, Identifier, LiteralKind, UnaryOperator, BinaryOperator, expr_span}
use kai_cc.Base.{ℕ, suc, List, [], ◌∷◌, ◌≡◌, ◌≤◌}
use kai_cc.Source.Location.{SourceSpan}

-- The spans stand in order between the offsets `lo` and `hi`, each of them in the file and none
-- with its end before its begin.
abbrev pub InOrder : OpenFile → ℕ → List SourceSpan → ℕ → Type 0
InOrder file lo [] hi = lo ≤ hi
InOrder file lo (s ∷ ss) hi =
    (s.begin.file ≡ file.id)
    × (s.end.file ≡ file.id)
    × (lo ≤ s.begin.offset)
    × (s.begin.offset ≤ s.end.offset)
    × InOrder file s.end.offset ss hi

-- A node's span with the spans of its parts.
abbrev pub Laid : OpenFile → SourceSpan → List SourceSpan → Type 0
Laid file s parts =
    (s.begin.file ≡ file.id)
    × (s.end.file ≡ file.id)
    × InOrder file s.begin.offset parts s.end.offset

abbrev pub expr_spans : Exprs → List SourceSpan
expr_spans Exprs.nil = []
expr_spans (Exprs.cons e es) = expr_span e ∷ expr_spans es

-- How tightly an operator binds.
abbrev pub operator_level : BinaryOperator → ℕ
operator_level BinaryOperator.or_op = 1
operator_level BinaryOperator.and_op = 2
operator_level BinaryOperator.eq_op = 3
operator_level BinaryOperator.not_equal = 3
operator_level BinaryOperator.lt_op = 4
operator_level BinaryOperator.less_equal = 4
operator_level BinaryOperator.gt_op = 4
operator_level BinaryOperator.greater_equal = 4
operator_level BinaryOperator.range = 5
operator_level BinaryOperator.add = 6
operator_level BinaryOperator.subtract = 6
operator_level BinaryOperator.multiply = 7
operator_level BinaryOperator.divide = 7
operator_level BinaryOperator.modulo = 7

-- What its left operand must bind as tightly as: itself, but for `..`, which does not associate.
abbrev pub left_level : BinaryOperator → ℕ
left_level BinaryOperator.range = 6
left_level op = operator_level op

abbrev pub level : Expr → ℕ
level (Expr.assignment _ _ _ _) = 0
level (Expr.binary op _ _ _ _) = operator_level op
level (Expr.unary _ _ _ _) = 8
level (Expr.call _ _ _) = 9
level (Expr.index _ _ _) = 9
level (Expr.member _ _ _) = 9
level (Expr.error_propagation _ _ _) = 9
level _ = 10

mutual
  pub data IsExpr (file : OpenFile) : Expr → Type 0 where
    literal : {k : LiteralKind} {s : SourceSpan} → Laid file s [] → IsExpr file (Expr.literal k s)
    identifier :
        {n : Identifier} {s : SourceSpan}
        → Laid file s (n.span ∷ [])
        → IsExpr file (Expr.identifier n s)
    call :
        {c : Expr} {es : Exprs} {s : SourceSpan}
        → IsExpr file c
        → 9 ≤ level c
        → AreExprs file es
        → Laid file s (expr_span c ∷ expr_spans es)
        → IsExpr file (Expr.call c es s)
    paren :
        {e : Expr} {s : SourceSpan}
        → IsExpr file e
        → Laid file s (expr_span e ∷ [])
        → IsExpr file (Expr.paren e s)
    unary :
        {op : UnaryOperator} {o : SourceSpan} {e : Expr} {s : SourceSpan}
        → IsExpr file e
        → 8 ≤ level e
        → Laid file s (o ∷ expr_span e ∷ [])
        → IsExpr file (Expr.unary op o e s)
    binary :
        {op : BinaryOperator} {o : SourceSpan} {l r : Expr} {s : SourceSpan}
        → IsExpr file l
        → left_level op ≤ level l
        → IsExpr file r
        → suc (operator_level op) ≤ level r
        → Laid file s (expr_span l ∷ o ∷ expr_span r ∷ [])
        → IsExpr file (Expr.binary op o l r s)
    assignment :
        {t : Expr} {o : SourceSpan} {v : Expr} {s : SourceSpan}
        → IsExpr file t
        → 1 ≤ level t
        → IsExpr file v
        → Laid file s (expr_span t ∷ o ∷ expr_span v ∷ [])
        → IsExpr file (Expr.assignment t o v s)
    array_literal :
        {es : Exprs} {s : SourceSpan}
        → AreExprs file es
        → Laid file s (expr_spans es)
        → IsExpr file (Expr.array_literal es s)
    index :
        {e i : Expr} {s : SourceSpan}
        → IsExpr file e
        → 9 ≤ level e
        → IsExpr file i
        → Laid file s (expr_span e ∷ expr_span i ∷ [])
        → IsExpr file (Expr.index e i s)
    member :
        {e : Expr} {n : Identifier} {s : SourceSpan}
        → IsExpr file e
        → 9 ≤ level e
        → Laid file s (expr_span e ∷ n.span ∷ [])
        → IsExpr file (Expr.member e n s)
    unit : {s : SourceSpan} → Laid file s [] → IsExpr file (Expr.unit s)
    error_propagation :
        {e : Expr} {o : SourceSpan} {s : SourceSpan}
        → IsExpr file e
        → 9 ≤ level e
        → Laid file s (expr_span e ∷ o ∷ [])
        → IsExpr file (Expr.error_propagation e o s)

  pub data AreExprs (file : OpenFile) : Exprs → Type 0 where
    nil : AreExprs file Exprs.nil
    cons :
        {e : Expr} {es : Exprs} → IsExpr file e → AreExprs file es → AreExprs file (Exprs.cons e es)
