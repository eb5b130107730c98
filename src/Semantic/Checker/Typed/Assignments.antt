-- ===== src/Semantic/Checker/Typed/Assignments.antt =====
-- The assignments of compiler/src/semantic/TypeChecker.cpp, and the types in a model.
use kai_cc.Ast.Expr.{Expr, expr_span}
use kai_cc.Base.{ℕ, Bool, true, false, not, ◌&&◌, Option, none, some, if◌then◌else◌}
use kai_cc.Semantic.Checker.Assignments.{
  Target, target_of, Plan, variable_plan, root_plan, index_plan, object_type, plan_of,
  value_context, stored_slice, store_result, plan_result, assignment_result,
}
use kai_cc.Semantic.Checker.Calls.{symbol_of, is_variable}
use kai_cc.Semantic.Checker.Literals.{no_context, unwrap_index_assignment_root, is_concrete}
use kai_cc.Semantic.Checker.Operators.{Check}
use kai_cc.Semantic.Checker.Typed.Rules.{
  keep, keep_error, plain-Known, fails-Keeps, if-Keeps, if-Known, after-Keeps,
}
use kai_cc.Semantic.Checker.Typed.{
  Tables, tables, Known, KnownOption, Known-Wide, Typed, Wide, Wide-refl, Wide-trans, Keeps, Safe,
  error-Known, unresolved-Known,
}
use kai_cc.Semantic.Model.{SemanticModel}
use kai_cc.Semantic.Symbol.{Symbol}
use kai_cc.Semantic.Types.{
  ValueType, TypeKind, kind_value, simple, types_equal, is_error, is_unresolved, is_slice,
}
use kai_cc.Source.Location.{SourceSpan}
use kai_cc.Base.{arith, Bool-cases, inl, inr}

abbrev KnownPlan : Tables → Plan → Type 0
KnownPlan t (Plan.gives v) = Known t v
KnownPlan t (Plan.store v _) = Known t v
KnownPlan t _ = Unit

if-KnownPlan :
    (t : Tables) (p q : Plan) (b : Bool)
    → KnownPlan t p
    → KnownPlan t q
    → KnownPlan t (if b then p else q)
if-KnownPlan t p q true k l = k
if-KnownPlan t p q false k l = l

failed-Known :
    (t : Tables) (b : Bool)
    → Known t (if b then simple TypeKind.error else simple TypeKind.unresolved)
failed-Known t b = if-Known b (error-Known t) (unresolved-Known t)

variable_plan-Known :
    (t : Tables) (span : SourceSpan) (id : ℕ) (s : Symbol) (v : ValueType)
    → Known t v
    → KnownPlan t (variable_plan span id s v)
unfolding variable_plan
variable_plan-Known t span id s v k = if-KnownPlan t _ _ (not s.is_mutable) tt (
    if-KnownPlan t _ _ (is_error v) (error-Known t)
      (if-KnownPlan t Plan.deferred (Plan.store v (some id)) (is_unresolved v) tt k))

root_plan-Known :
    (t : Tables) (found : Option (ℕ × Symbol)) (span : SourceSpan) (v : ValueType)
    → Known t v
    → KnownPlan t (root_plan found span v)
unfolding root_plan
root_plan-Known t none span v k = failed-Known t (is_error v)
root_plan-Known t (some (_, s)) span v k =
    if-KnownPlan t _ _ (not (is_variable s.kind && is_concrete v)) (failed-Known t (is_error v)) (
      if-KnownPlan t (Plan.immutable span s.declared_at) (Plan.store v none) (not s.is_mutable) tt
        k)

plan_of-Known :
    (t : Tables) (m : SemanticModel) (target : Target) (span : SourceSpan) (v : ValueType)
    → Known t v
    → KnownPlan t (plan_of m target span v)
unfolding index_plan
plan_of-Known t m (Target.variable id s) span v k = variable_plan-Known t span id s v k
plan_of-Known t m (Target.index object) span v k =
    if-KnownPlan t (Plan.through_slice (expr_span object) (not (is_error v)))
      (root_plan (symbol_of m (unwrap_index_assignment_root object)) (expr_span object) v)
      (is_slice (object_type m object)) tt (root_plan-Known t _ _ v k)
plan_of-Known t m Target.unknown span v k = error-Known t
plan_of-Known t m Target.member span v k = unresolved-Known t
plan_of-Known t m Target.invalid span v k = tt

value_context-Known : (t : Tables) (p : Plan) → KnownPlan t p → KnownOption t (value_context p).0
value_context-Known t (Plan.store v id) k = k
value_context-Known t (Plan.immutable _ _) k = tt
value_context-Known t (Plan.through_slice _ _) k = tt
value_context-Known t (Plan.gives _) k = tt
value_context-Known t Plan.deferred k = tt
value_context-Known t Plan.invalid k = tt

KnownPlan-Wide : {t t' : Tables} (p : Plan) → Wide t t' → KnownPlan t p → KnownPlan t' p
KnownPlan-Wide (Plan.store v id) g k = Known-Wide v g k
KnownPlan-Wide (Plan.immutable _ _) g k = tt
KnownPlan-Wide (Plan.through_slice _ _) g k = tt
KnownPlan-Wide (Plan.gives v) g k = Known-Wide v g k
KnownPlan-Wide Plan.deferred g k = tt
KnownPlan-Wide Plan.invalid g k = tt

unit-Known : (t : Tables) → Known t (simple TypeKind.unit)
unfolding kind_value
unit-Known t = plain-Known t TypeKind.unit (omega arith)

stored-Keeps :
    (id : Option ℕ) (v : ValueType) (value : Expr) (m : SemanticModel)
    → Typed m
    → Keeps (tables m) (simple TypeKind.unit, stored_slice id v value m)
unfolding stored_slice
stored-Keeps none v value m h = keep _ m h (unit-Known (tables m))
stored-Keeps (some id) v value m h = elim (Bool-cases (is_slice v)) [
  | inl e ↦
      rw (e, stored_slice)
        (record { wide = Wide-refl (tables m); is_typed = h; known = unit-Known (tables m) })
  | inr e ↦ rw (e, stored_slice) (keep _ m h (unit-Known (tables m)))
]

plan_result-Keeps :
    (p : Plan) (target value : Expr) (actual : ValueType) (m : SemanticModel)
    → Typed m
    → KnownPlan (tables m) p
    → Keeps (tables m) (plan_result p target value actual m)
unfolding plan_result store_result
plan_result-Keeps (Plan.immutable _ _) target value actual m h k = fails-Keeps _ m h
plan_result-Keeps (Plan.through_slice _ b) target value actual m h k =
    if-Keeps b (λ _. fails-Keeps _ m h) (λ _. keep_error m h)
plan_result-Keeps (Plan.gives v) target value actual m h k = keep v m h k
plan_result-Keeps Plan.deferred target value actual m h k =
    keep _ m h (if-Known (is_error actual) (error-Known (tables m)) (unit-Known (tables m)))
plan_result-Keeps Plan.invalid target value actual m h k = fails-Keeps _ m h
plan_result-Keeps (Plan.store v id) target value actual m h k =
    if-Keeps (is_error actual) (λ _. keep_error m h)
      (λ _.
        if-Keeps (not (is_unresolved actual) && not (types_equal actual v)) (λ _. fails-Keeps _ m h)
          (λ _. stored-Keeps id v value m h))

pub assignment_result-Keeps :
    (target : Expr) (check_target : Check) (value : Expr) (check_value : Check) (m : SemanticModel)
    → Safe check_target
    → Safe check_value
    → Typed m
    → Keeps (tables m) (assignment_result target check_target value check_value m)
unfolding assignment_result
assignment_result-Keeps target check_target value check_value m st sv h =
    let r = st no_context m h tt in
    let (v, m1) = check_target no_context m in
    let p = plan_of m1 (target_of m target) (expr_span target) v in
    let k = plan_of-Known (tables m1) m1 (target_of m target) (expr_span target) v r.known in
    let q = sv (value_context p) m1 r.is_typed (value_context-Known (tables m1) p k) in
    after-Keeps (Wide-trans r.wide q.wide) (
      plan_result-Keeps p target value _ (check_value (value_context p) m1).1 q.is_typed
        (KnownPlan-Wide p q.wide k))
