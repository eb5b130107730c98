-- ===== src/Semantic/Analyzer/Scoped.antt =====
-- The scopes of the analyzer that fit a model, and its expressions as steps.
use kai_cc.Ast.Expr.{Expr, Exprs, Identifier}
use kai_cc.Base.{
  ℕ, Option, none, some, [], ◌∷◌, Bytes, ◌≡◌, inl, inr, refl, ◌∙◌, Option-cases, find, Every,
  Every-find,
}
use kai_cc.Semantic.Analyzer.Bodies.{
  resolve_to, analyze_identifier_expr, analyze_expr, analyze_exprs,
}
use kai_cc.Semantic.Analyzer.Preserved.{Reach-IsSound}
use kai_cc.Semantic.Analyzer.Scopes.{
  Scope, ScopeStack, name_key, lookup_enclosing, lookup_identifier,
}
use kai_cc.Semantic.Analyzer.Steps.{
  HasName, Step, Reach, here, next, Reach-trans, Reach-Grows, HasName-grow, IsSound,
}
use kai_cc.Semantic.Model.{SemanticModel}
use kai_cc.Semantic.Shapes.Tables.{Grows}
use kai_cc.Source.Text.{text}

-- Every id of a scope is that of a symbol with the name.
pub record IsScope (m : SemanticModel) (scope : Scope) : Type 0 where
  pub named : Every (λ name id. HasName m id name) scope

abbrev pub AreScopes : SemanticModel → ScopeStack → Type 0
AreScopes m [] = Unit
AreScopes m (scope ∷ stack) = IsScope m scope × AreScopes m stack

-- Where the analysis stands: a sound model, and scopes that fit it.
pub record Stands (contents : Bytes) (m : SemanticModel) (scope : Scope) (stack : ScopeStack)
    : Type 0 where
  pub sound : IsSound contents m
  pub is_scope : IsScope m scope
  pub are_scopes : AreScopes m stack

named-grow :
    {m m' : SemanticModel} (scope : Scope)
    → Grows m m'
    → Every (λ name id. HasName m id name) scope
    → Every (λ name id. HasName m' id name) scope
named-grow [] g h = tt
named-grow ((name, id) ∷ scope) g h = (HasName-grow g h.0, named-grow scope g h.1)

pub IsScope-grow :
    {m m' : SemanticModel} {scope : Scope} → Grows m m' → IsScope m scope → IsScope m' scope
IsScope-grow {m} {m'} {scope} g h = record { named = named-grow scope g h.named }

AreScopes-grow :
    {m m' : SemanticModel} (stack : ScopeStack)
    → Grows m m'
    → AreScopes m stack
    → AreScopes m' stack
AreScopes-grow [] g h = tt
AreScopes-grow (scope ∷ stack) g h = (IsScope-grow g h.0, AreScopes-grow stack g h.1)

pub after :
    {contents : Bytes} {m m' : SemanticModel} {scope : Scope} {stack : ScopeStack}
    → Stands contents m scope stack
    → Reach contents m m'
    → Stands contents m' scope stack
after {contents} {m} {m'} {scope} {stack} s r = record {
  sound = Reach-IsSound s.sound r;
  is_scope = IsScope-grow (Reach-Grows r) s.is_scope;
  are_scopes = AreScopes-grow stack (Reach-Grows r) s.are_scopes;
}

pub empty-IsScope : (m : SemanticModel) → IsScope m []
empty-IsScope m = record { named = tt }

-- Into a block.
pub inside :
    {contents : Bytes} {m : SemanticModel} {scope : Scope} {stack : ScopeStack}
    → Stands contents m scope stack
    → Stands contents m [] (scope ∷ stack)
inside {contents} {m} s = record {
  sound = s.sound;
  is_scope = empty-IsScope m;
  are_scopes = (s.is_scope, s.are_scopes);
}

find-HasName :
    {m : SemanticModel} {scope : Scope} (name : Bytes) {id : ℕ}
    → IsScope m scope
    → find name scope ≡ some id
    → HasName m id name
find-HasName {m} {scope} name h e = Every-find (λ name id. HasName m id name) name scope h.named e

enclosing-HasName :
    {m : SemanticModel} (stack : ScopeStack) (name : Bytes) {id : ℕ}
    → AreScopes m stack
    → lookup_enclosing name stack ≡ some id
    → HasName m id name
unfolding lookup_enclosing
enclosing-HasName [] name h e = cc e
enclosing-HasName (scope ∷ stack) name h e = elim (Option-cases (find name scope)) [
  | inl missing ↦ enclosing-HasName stack name h.1 (rw (missing, lookup_enclosing) at e)
  | inr (i, found) ↦ find-HasName name h.0 (found ∙ (rw (found, lookup_enclosing) at e))
]

lookup-HasName :
    {contents : Bytes} {m : SemanticModel} {scope : Scope} {stack : ScopeStack} (name : Bytes)
    {id : ℕ}
    → Stands contents m scope stack
    → lookup_identifier name scope stack ≡ some id
    → HasName m id name
unfolding lookup_identifier
lookup-HasName {contents} {m} {scope} {stack} name s e = elim (Option-cases (find name scope)) [
  | inl missing ↦ enclosing-HasName stack name s.are_scopes (rw (missing, lookup_identifier) at e)
  | inr (i, found) ↦ find-HasName name s.is_scope (found ∙ (rw (found, lookup_identifier) at e))
]

module _ {contents : Bytes} where
  resolve_to-Reach :
      (n : Identifier) (found : Option ℕ) {m : SemanticModel}
      → ((id : ℕ) → found ≡ some id → HasName m id (text contents n.span))
      → Reach contents m (resolve_to n found m)
  unfolding resolve_to
  resolve_to-Reach n none h = next here (Step.error _)
  resolve_to-Reach n (some id) h = next here (Step.resolve n id (h id refl))

  mutual
    unfolding analyze_expr analyze_exprs analyze_identifier_expr

    pub expr-Reach :
        (e : Expr) {m : SemanticModel} {scope : Scope} {stack : ScopeStack}
        → Stands contents m scope stack
        → Reach contents m (analyze_expr contents scope stack e m)
    expr-Reach (Expr.literal _ _) s = here
    expr-Reach (Expr.unit _) s = here
    expr-Reach (Expr.identifier n _) s =
        resolve_to-Reach n _ (λ id e. lookup-HasName (text contents n.span) s e)
    expr-Reach (Expr.call f es _) s =
        let r = expr-Reach f s in Reach-trans r (exprs-Reach es (after s r))
    expr-Reach (Expr.paren e _) s = expr-Reach e s
    expr-Reach (Expr.unary _ _ e _) s = expr-Reach e s
    expr-Reach (Expr.binary _ _ left right _) s =
        let r = expr-Reach left s in Reach-trans r (expr-Reach right (after s r))
    expr-Reach (Expr.assignment target _ value _) s =
        let r = expr-Reach target s in Reach-trans r (expr-Reach value (after s r))
    expr-Reach (Expr.array_literal es _) s = exprs-Reach es s
    expr-Reach (Expr.index e i _) s =
        let r = expr-Reach e s in Reach-trans r (expr-Reach i (after s r))
    expr-Reach (Expr.member e _ _) s = expr-Reach e s
    expr-Reach (Expr.error_propagation e _ _) s = expr-Reach e s

    pub exprs-Reach :
        (es : Exprs) {m : SemanticModel} {scope : Scope} {stack : ScopeStack}
        → Stands contents m scope stack
        → Reach contents m (analyze_exprs contents scope stack es m)
    exprs-Reach Exprs.nil s = here
    exprs-Reach (Exprs.cons e es) s =
        let r = expr-Reach e s in Reach-trans r (exprs-Reach es (after s r))
