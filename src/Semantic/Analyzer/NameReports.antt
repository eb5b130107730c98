-- ===== src/Semantic/Analyzer/NameReports.antt =====
-- The scopes of the analyzer, as names, and what is reported of identifiers and expressions.
use kai_cc.Ast.Expr.{Expr, Exprs, Identifier}
use kai_cc.Base.{
  ℕ, Bool, true, false, ◌||◌, Option, none, some, List, [], ◌∷◌, ◌++◌, Bytes, ◌≡◌, inl, inr, refl,
  arith, Bool-cases, Option-cases, find, emplace,
}
use kai_cc.Lexer.Keywords.{equal}
use kai_cc.Semantic.Analyzer.Bodies.{
  resolve_to, analyze_identifier_expr, analyze_expr, analyze_exprs, analyze_value,
}
use kai_cc.Semantic.Analyzer.Problems.{
  has, with_name, expr_problems, exprs_problems, value_problems, declaration_problems,
}
use kai_cc.Semantic.Analyzer.Reports.{Adds, Adds-nothing, Adds-error, ◌⟫◌, quietly}
use kai_cc.Semantic.Analyzer.Scopes.{
  Scope, ScopeStack, name_key, report_duplicate, new_symbol, declare_in_scope, lookup_enclosing,
  lookup_identifier,
}
use kai_cc.Semantic.Model.{SemanticModel}
use kai_cc.Semantic.Symbol.{SymbolKind}
use kai_cc.Semantic.Types.{ValueType}
use kai_cc.Source.Text.{text}

unfoldable pub names : Scope → List Bytes
names [] = []
names ((name, _) ∷ scope) = name ∷ names scope

unfoldable pub stack_names : ScopeStack → List Bytes
stack_names [] = []
stack_names (scope ∷ stack) = names scope ++ stack_names stack

-- A search and a test agree.
abbrev pub Agree : Option ℕ → Bool → Type 0
Agree none b = b ≡ false
Agree (some id) b = b ≡ true

has-append : (name : Bytes) (xs ys : List Bytes) → has name (xs ++ ys) ≡ has name xs || has name ys
unfolding has
has-append name [] ys = refl
has-append name (x ∷ xs) ys = ground (arith, has-append name xs ys)

pub find-Agree : (name : Bytes) (scope : Scope) → Agree (find name scope) (has name (names scope))
unfolding find has names
find-Agree name [] = refl
find-Agree name ((x, id) ∷ scope) = elim (Bool-cases (equal x name)) [
  | inl e ↦ rw e refl
  | inr e ↦ rw e (find-Agree name scope)
]

-- What is not in one part is in the other.
Agree-or :
    (a b : Option ℕ) (p q : Bool)
    → Agree a p
    → Agree b q
    → Agree (elim a [ some id ↦ some id | none ↦ b ]) (p || q)
Agree-or none b p q h k = rw h k
Agree-or (some id) b p q h k = rw h refl

enclosing-Agree :
    (name : Bytes) (stack : ScopeStack)
    → Agree (lookup_enclosing name stack) (has name (stack_names stack))
unfolding lookup_enclosing stack_names has
enclosing-Agree name [] = refl
enclosing-Agree name (scope ∷ stack) = rw (has-append name (names scope) (stack_names stack)) (
    Agree-or (find name scope) (lookup_enclosing name stack) _ _ (find-Agree name scope)
      (enclosing-Agree name stack))

-- The names that can be seen.
abbrev pub visible : Scope → ScopeStack → List Bytes
visible scope stack = names scope ++ stack_names stack

lookup-Agree :
    (name : Bytes) (scope : Scope) (stack : ScopeStack)
    → Agree (lookup_identifier name scope stack) (has name (visible scope stack))
unfolding lookup_identifier
lookup-Agree name scope stack = rw (has-append name (names scope) (stack_names stack)) (
    Agree-or (find name scope) (lookup_enclosing name stack) _ _ (find-Agree name scope)
      (enclosing-Agree name stack))

pub names-emplace :
    (name : Bytes) (id : ℕ) (scope : Scope)
    → names (emplace name id scope) ≡ with_name name (names scope)
unfolding emplace names with_name
names-emplace name id scope =
    let agree = find-Agree name scope in
    elim (Option-cases (find name scope)) [
      | inl e ↦ let h : has name (names scope) ≡ false = rw e at agree in rw (e, h, emplace) refl
      | inr (i, e) ↦
          let h : has name (names scope) ≡ true = rw e at agree in rw (e, h, emplace) refl
    ]

module _ (contents : Bytes) where
  resolve-Adds :
      (n : Identifier) (found : Option ℕ) (seen : List Bytes) (m : SemanticModel)
      → Agree found (has (text contents n.span) seen)
      → Adds m (expr_problems contents seen (Expr.identifier n n.span)) (resolve_to n found m)
  unfolding resolve_to expr_problems
  resolve-Adds n none seen m h = rw h (Adds-error m _)
  resolve-Adds n (some id) seen m h = rw h (quietly refl (Adds-nothing m))

  mutual
    unfolding analyze_expr analyze_exprs expr_problems exprs_problems analyze_identifier_expr

    pub expr-Adds :
        (scope : Scope) (stack : ScopeStack) (e : Expr) (m : SemanticModel)
        → Adds m
            (expr_problems contents (visible scope stack) e)
            (analyze_expr contents scope stack e m)
    expr-Adds scope stack (Expr.literal _ _) m = Adds-nothing m
    expr-Adds scope stack (Expr.unit _) m = Adds-nothing m
    expr-Adds scope stack (Expr.identifier n _) m =
        resolve-Adds n _ (visible scope stack) m (lookup-Agree (text contents n.span) scope stack)
    expr-Adds scope stack (Expr.call f es _) m =
        expr-Adds scope stack f m ⟫ exprs-Adds scope stack es _
    expr-Adds scope stack (Expr.paren e _) m = expr-Adds scope stack e m
    expr-Adds scope stack (Expr.unary _ _ e _) m = expr-Adds scope stack e m
    expr-Adds scope stack (Expr.binary _ _ l r _) m =
        expr-Adds scope stack l m ⟫ expr-Adds scope stack r _
    expr-Adds scope stack (Expr.assignment t _ v _) m =
        expr-Adds scope stack t m ⟫ expr-Adds scope stack v _
    expr-Adds scope stack (Expr.array_literal es _) m = exprs-Adds scope stack es m
    expr-Adds scope stack (Expr.index e i _) m =
        expr-Adds scope stack e m ⟫ expr-Adds scope stack i _
    expr-Adds scope stack (Expr.member e _ _) m = expr-Adds scope stack e m
    expr-Adds scope stack (Expr.error_propagation e _ _) m = expr-Adds scope stack e m

    pub exprs-Adds :
        (scope : Scope) (stack : ScopeStack) (es : Exprs) (m : SemanticModel)
        → Adds m
            (exprs_problems contents (visible scope stack) es)
            (analyze_exprs contents scope stack es m)
    exprs-Adds scope stack Exprs.nil m = Adds-nothing m
    exprs-Adds scope stack (Exprs.cons e es) m =
        expr-Adds scope stack e m ⟫ exprs-Adds scope stack es _

  pub value-Adds :
      (scope : Scope) (stack : ScopeStack) (e : Option Expr) (m : SemanticModel)
      → Adds m
          (value_problems contents (visible scope stack) e)
          (analyze_value contents scope stack e m)
  value-Adds scope stack none m = Adds-nothing m
  value-Adds scope stack (some e) m = expr-Adds scope stack e m

  -- A declaration: what it reports, and the names behind it.
  pub duplicate-Adds :
      (scope : Scope) (n : Identifier) (m : SemanticModel)
      → Adds m
          (declaration_problems contents (names scope) n)
          (report_duplicate (find (text contents n.span) scope) n.span m)
  unfolding declaration_problems report_duplicate
  duplicate-Adds scope n m =
      let name = text contents n.span in
      let agree = find-Agree name scope in
      elim (Option-cases (find name scope)) [
        | inl e ↦
            let h : has name (names scope) ≡ false = rw e at agree in
            rw (e, h, report_duplicate) (Adds-nothing m)
        | inr (i, e) ↦
            let h : has name (names scope) ≡ true = rw e at agree in
            rw (e, h, report_duplicate) (Adds-error m _)
      ]

  pub declare-Adds :
      (scope : Scope) (kind : SymbolKind) (n : Identifier) (is_mutable : Bool) (t : ValueType)
      (m : SemanticModel)
      → Adds m
          (declaration_problems contents (names scope) n)
          (declare_in_scope contents scope kind n is_mutable t m).1
  unfolding declare_in_scope new_symbol
  declare-Adds scope kind n is_mutable t m = quietly refl (duplicate-Adds scope n m)

  pub declare-names :
      (scope : Scope) (kind : SymbolKind) (n : Identifier) (is_mutable : Bool) (t : ValueType)
      (m : SemanticModel)
      → names (declare_in_scope contents scope kind n is_mutable t m).0
        ≡ with_name (text contents n.span) (names scope)
  unfolding declare_in_scope
  declare-names scope kind n is_mutable t m = names-emplace _ _ scope
