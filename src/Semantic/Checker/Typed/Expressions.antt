-- ===== src/Semantic/Checker/Typed/Expressions.antt =====
-- `checkExpr` of compiler/src/semantic/TypeChecker.cpp, and the types in a model.
use kai_cc.Ast.Expr.{Expr, Exprs, Identifier, expr_span}
use kai_cc.Base.{
  ℕ, zero, suc, Option, none, some, List, [], ◌∷◌, Bytes, drop, arith, inl, inr, Bool-cases,
  if◌then◌else◌,
}
use kai_cc.Semantic.Checker.Arrays.{anchor_type, try_decode_constant_index}
use kai_cc.Semantic.Checker.Calls.{
  symbol_of, callee_of, callee_parameters, report_argument, argument_context, is_variable,
}
use kai_cc.Semantic.Checker.Expressions.{
  identifier_type, check_expr, check_arguments, check_anchor, check_elements,
}
use kai_cc.Semantic.Checker.Literals.{
  Context, no_context, can_accept_numeric_context, unwrap_adaptable_literal,
}
use kai_cc.Semantic.Checker.Typed.Arrays.{
  KeepsAll, KeepsAnchor, check_array_literal-Keeps, expected_element_type-Concrete,
  index_result-Keeps,
}
use kai_cc.Semantic.Checker.Typed.Assignments.{assignment_result-Keeps}
use kai_cc.Semantic.Checker.Typed.Calls.{
  KnownFound, symbol_of-Known, callee_of-Known, callee_parameters-Known, argument_context-Known,
  report_argument-Keeps, KeepsArguments, call_result-Keeps, KnownCallee-Wide,
}
use kai_cc.Semantic.Checker.Typed.Operators.{check_unary_expr-Keeps, check_binary_expr-Keeps}
use kai_cc.Semantic.Checker.Typed.Rules.{
  keep, keep_unresolved, plain-Known, if-Known, after-Keeps, typed-Keeps, check_literal_expr-Keeps,
}
use kai_cc.Semantic.Checker.Typed.{
  Tables, tables, Known, AllKnown, KnownOption, Known-Wide, AllKnown-Wide, KnownOption-Wide, Typed,
  Wide-refl, Wide-trans, Keeps, error-Known, unresolved-Known,
}
use kai_cc.Semantic.Model.{SemanticModel}
use kai_cc.Semantic.Symbol.{Symbol}
use kai_cc.Semantic.Types.{ValueType, TypeKind, kind_value, simple}

abbrev found_type : Option (ℕ × Symbol) → ValueType
found_type found = elim found [
  | some (_, s) ↦ if is_variable s.kind then s.type else simple TypeKind.unresolved
  | none ↦ simple TypeKind.error
]

found_type-Known :
    (t : Tables) (found : Option (ℕ × Symbol)) → KnownFound t found → Known t (found_type found)
found_type-Known t none k = error-Known t
found_type-Known t (some (_, s)) k = if-Known (is_variable s.kind) k.type_known (unresolved-Known t)

identifier_type-Known :
    (m : SemanticModel) (n : Identifier) → Typed m → Known (tables m) (identifier_type m n)
unfolding identifier_type
identifier_type-Known m n h =
    found_type-Known (tables m) (symbol_of m (some n)) (symbol_of-Known m (some n) h)

unit_expr-Known : (t : Tables) → Known t (simple TypeKind.unit)
unfolding kind_value
unit_expr-Known t = plain-Known t TypeKind.unit (omega arith)

rest-AllKnown : (t : Tables) (vs : List ValueType) → AllKnown t vs → AllKnown t (drop 1 vs)
rest-AllKnown t [] k = tt
rest-AllKnown t (v ∷ vs) k = k.1

moved-Known :
    (t : Tables) (found : Option (ℕ × ValueType))
    → KnownOption t (anchor_type found)
    → KnownOption t (anchor_type (elim found [ some (i, v) ↦ some (suc i, v) | none ↦ none ]))
moved-Known t none k = tt
moved-Known t (some (i, v)) k = k

anchored-AllKnown :
    (t : Tables) (c : Option ValueType) (vs : List ValueType)
    → KnownOption t c
    → AllKnown t vs
    → AllKnown t (elim c [ some v ↦ v ∷ vs | none ↦ vs ])
anchored-AllKnown t none vs k all = all
anchored-AllKnown t (some v) vs k all = (k, all)

module _ (contents : Bytes) where
  mutual
    unfolding check_expr check_arguments check_anchor check_elements

    pub check_expr-Keeps :
        (e : Expr) (c : Context) (m : SemanticModel)
        → Typed m
        → KnownOption (tables m) c.0
        → Keeps (tables m) (check_expr contents e c m)
    check_expr-Keeps (Expr.literal kind span) c m h k =
        check_literal_expr-Keeps contents kind span c m h k
    check_expr-Keeps (Expr.unit span) c m h k =
        typed-Keeps span _ (keep _ m h (unit_expr-Known (tables m)))
    check_expr-Keeps (Expr.identifier n span) c m h k =
        typed-Keeps span _ (keep _ m h (identifier_type-Known m n h))
    check_expr-Keeps (Expr.paren inner span) c m h k =
        typed-Keeps span _ (check_expr-Keeps inner c m h k)
    check_expr-Keeps (Expr.unary op operator operand span) c m h k =
        check_unary_expr-Keeps contents op operator (unwrap_adaptable_literal operand) _ span c m
          (λ d n i j. check_expr-Keeps operand d n i j) h k
    check_expr-Keeps (Expr.binary op operator left right span) c m h k =
        check_binary_expr-Keeps op operator _ _ _ _ span c m
          (λ d n i j. check_expr-Keeps left d n i j) (λ d n i j. check_expr-Keeps right d n i j) h k
    check_expr-Keeps (Expr.call callee es span) c m h k =
        let r = check_expr-Keeps callee no_context m h tt in
        let f = KnownCallee-Wide (callee_of m callee) r.wide (callee_of-Known m callee h) in
        let a =
          check_arguments-Keeps es (callee_parameters (callee_of m callee))
            (check_expr contents callee no_context m).1 r.is_typed
            (callee_parameters-Known _ (callee_of m callee) f) in
        typed-Keeps span _ (
          after-Keeps r.wide (
            call_result-Keeps (callee_of m callee) _ es span _ _ a
              (KnownCallee-Wide (callee_of m callee) a.wide f)))
    check_expr-Keeps (Expr.assignment target operator value span) c m h k = typed-Keeps span _ (
        assignment_result-Keeps target _ value _ m (λ d n i j. check_expr-Keeps target d n i j)
          (λ d n i j. check_expr-Keeps value d n i j) h)
    check_expr-Keeps (Expr.array_literal es span) c m h k = typed-Keeps span _ (
        check_array_literal-Keeps es span _ _ _ m (λ n i. check_anchor-Keeps es n i)
          (λ skip d n i j. check_elements-Keeps es skip d n i j) h
          (expected_element_type-Concrete c.0 m k))
    check_expr-Keeps (Expr.index object place span) c m h k =
        let r = check_expr-Keeps object no_context m h tt in
        let q =
          check_expr-Keeps place no_context (check_expr contents object no_context m).1 r.is_typed
            tt in
        typed-Keeps span _ (
          after-Keeps (Wide-trans r.wide q.wide) (
            index_result-Keeps (try_decode_constant_index contents place) _ _ _ _ _ q.is_typed
              (Known-Wide _ q.wide r.known)))
    check_expr-Keeps (Expr.member object n span) c m h k =
        let r = check_expr-Keeps object no_context m h tt in
        typed-Keeps span _ (after-Keeps r.wide (keep_unresolved _ r.is_typed))
    check_expr-Keeps (Expr.error_propagation operand operator span) c m h k =
        let r = check_expr-Keeps operand no_context m h tt in
        typed-Keeps span _ (after-Keeps r.wide (keep_unresolved _ r.is_typed))

    check_arguments-Keeps :
        (es : Exprs) (vs : List ValueType) (m : SemanticModel)
        → Typed m
        → AllKnown (tables m) vs
        → KeepsArguments (tables m) (check_arguments contents es vs m)
    check_arguments-Keeps Exprs.nil vs m h k = record {
      wide = Wide-refl (tables m);
      is_typed = h;
      all_known = tt;
    }
    check_arguments-Keeps (Exprs.cons e es) vs m h k =
        let r =
          report_argument-Keeps vs (expr_span e) _ (
            check_expr-Keeps e (argument_context vs) m h
              (argument_context-Known (tables m) vs k)) in
        let (v, m1) =
          report_argument vs (expr_span e) (check_expr contents e (argument_context vs) m) in
        let rest =
          check_arguments-Keeps es (drop 1 vs) m1 r.is_typed
            (AllKnown-Wide (drop 1 vs) r.wide (rest-AllKnown (tables m) vs k)) in
        record {
          wide = Wide-trans r.wide rest.wide;
          is_typed = rest.is_typed;
          all_known = (Known-Wide v rest.wide r.known, rest.all_known);
        }

    check_anchor-Keeps :
        (es : Exprs) (m : SemanticModel)
        → Typed m
        → KeepsAnchor (tables m) (check_anchor contents es m)
    check_anchor-Keeps Exprs.nil m h = record {
      wide = Wide-refl (tables m);
      is_typed = h;
      anchor_known = tt;
    }
    check_anchor-Keeps (Exprs.cons e es) m h =
        let r = check_expr-Keeps e no_context m h tt in
        let rest = check_anchor-Keeps es m h in
        elim (Bool-cases (can_accept_numeric_context e)) [
          | inl flexible ↦
              rw (flexible, check_anchor)
                (record {
                  wide = rest.wide;
                  is_typed = rest.is_typed;
                  anchor_known = moved-Known _ (check_anchor contents es m).0 rest.anchor_known;
                })
          | inr own ↦
              rw (own, check_anchor)
                (record { wide = r.wide; is_typed = r.is_typed; anchor_known = r.known })
        ]

    check_elements-Keeps :
        (es : Exprs) (skip : Option ℕ) (c : Option ValueType) (m : SemanticModel)
        → Typed m
        → KnownOption (tables m) c
        → KeepsAll (tables m) (check_elements contents es skip c m)
    check_elements-Keeps Exprs.nil skip c m h k = record {
      wide = Wide-refl (tables m);
      is_typed = h;
      all_known = tt;
    }
    check_elements-Keeps (Exprs.cons e es) (some zero) c m h k =
        let rest = check_elements-Keeps es none c m h k in
        record {
          wide = rest.wide;
          is_typed = rest.is_typed;
          all_known =
              anchored-AllKnown _ c (check_elements contents es none c m).0
                (KnownOption-Wide c rest.wide k) rest.all_known;
        }
    check_elements-Keeps (Exprs.cons e es) (some (suc i)) c m h k =
        let r = check_expr-Keeps e (c, none) m h k in
        let rest =
          check_elements-Keeps es (some i) c (check_expr contents e (c, none) m).1 r.is_typed
            (KnownOption-Wide c r.wide k) in
        record {
          wide = Wide-trans r.wide rest.wide;
          is_typed = rest.is_typed;
          all_known = (Known-Wide _ rest.wide r.known, rest.all_known);
        }
    check_elements-Keeps (Exprs.cons e es) none c m h k =
        let r = check_expr-Keeps e (c, none) m h k in
        let rest =
          check_elements-Keeps es none c (check_expr contents e (c, none) m).1 r.is_typed
            (KnownOption-Wide c r.wide k) in
        record {
          wide = Wide-trans r.wide rest.wide;
          is_typed = rest.is_typed;
          all_known = (Known-Wide _ rest.wide r.known, rest.all_known);
        }
