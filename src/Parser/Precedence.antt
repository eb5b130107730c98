-- ===== src/Parser/Precedence.antt =====
-- The loops of the binary tiers of compiler/src/parser/Parser.cpp, and the levels of operators.
use kai_cc.Parser.Input.{OpenFile}
use kai_cc.Ast.Expr.{Expr, BinaryOperator}
use kai_cc.Base.{ℕ, zero, suc, ◌+◌, ◌<◌, ◌≤◌, ◌≡◌, ◌≢◌, arith, Option, some, inl, inr, Option-cases}
use kai_cc.Parser.Layout.{IsExpr, operator_level, left_level}
use kai_cc.Parser.Nodes.{Parsed, Parses}
use kai_cc.Parser.Operators.{binary, binary_loop, left_associative}
use kai_cc.Parser.Progress.{remaining, advanced-Reads, advanced-Covers}
use kai_cc.Parser.Rules.{Post, returns, ◌⟫◌}
use kai_cc.Parser.State.{Parser, M, advance, advanced}
use kai_cc.Token.{TokenKind}

-- An operator at `p`, behind a left operand that was read from `p0` on.
pub binary-Post :
    (file : OpenFile) (k n : ℕ) (op : BinaryOperator) (operand : M Expr) (p0 : Parser) (left : Expr)
    (p : Parser)
    → Parses file (suc (operator_level op)) n operand
    → Parsed file k p0 left p
    → left_level op ≤ k
    → p.current.kind ≢ TokenKind.end_of_file
    → remaining p < n
    → Post file
        (λ e p'. Parsed file (operator_level op) p0 e p' × (remaining p' + 1 ≤ remaining p))
        (binary op left operand p)
unfolding binary advance
binary-Post file k n op operand p0 left p parses node tight ne h =
    let reads = advanced-Reads file p node.reads.ready ne in
    let covers = advanced-Covers file p node.reads.ready in
    parses (advanced p) reads.ready (omega arith) ⟫ λ right p2 value. returns (
      record {
        reads = ground arith;
        covers = omega arith;
        is_expr =
            IsExpr.binary node.is_expr (omega (arith, node.tight)) value.is_expr value.tight
              (omega arith);
        tight = omega arith;
      },
      omega arith,
    )

-- The operators of a left-associative tier, all of the tier's level.
abbrev pub IsTier : ℕ → (TokenKind → Option BinaryOperator) → Type 0
IsTier k operator =
    (t : TokenKind) (op : BinaryOperator)
    → operator t ≡ some op
    → (operator_level op ≡ k) × (left_level op ≡ k) × (t ≢ TokenKind.end_of_file)

module _ (file : OpenFile) (k n : ℕ) (operator : TokenKind → Option BinaryOperator)
    (operand : M Expr) (tier : IsTier k operator) (parses : Parses file (suc k) n operand) where
  binary_loop-Post :
      (fuel : ℕ) (p0 : Parser) (left : Expr) (p : Parser)
      → Parsed file k p0 left p
      → remaining p < n
      → remaining p < fuel
      → Post file (Parsed file k p0) (binary_loop operator operand fuel left p)
  unfolding binary_loop
  binary_loop-Post zero p0 left p node h hf = absurd (omega arith)
  binary_loop-Post (suc fuel) p0 left p node h hf = elim (Option-cases (operator p.current.kind)) [
    | inl stop ↦ rw (stop, binary_loop) (returns node)
    | inr (op, more) ↦
        let (same, same_left, ne) = tier p.current.kind op more in
        rw (more, binary_loop)
          (binary-Post file k n op operand p0 left p (rw same parses) node
              (omega (arith, same_left)) ne h
            ⟫ λ e p' (node', fewer).
                binary_loop-Post fuel p0 e p' (rw same at node') (omega arith) (omega arith))
  ]

  pub left_associative-Post :
      (fuel : ℕ) → n ≤ fuel → Parses file k n (left_associative operator fuel operand)
  left_associative-Post fuel hf p r h = parses p r h ⟫ λ left p1 node.
      binary_loop-Post fuel p left p1
        (record {
          reads = node.reads;
          covers = node.covers;
          is_expr = node.is_expr;
          tight = omega (arith, node.tight);
        })
        (omega arith) (omega arith)
