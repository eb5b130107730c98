-- ===== src/Semantic/Checker/Assignments.antt =====
-- Assignments in compiler/src/semantic/TypeChecker.cpp: what the target is, the context of the
-- value, and the result.
use kai_cc.Ast.Expr.{Expr, expr_span}
use kai_cc.Base.{ℕ, Bool, not, ◌&&◌, Option, none, some, if◌then◌else◌}
use kai_cc.Semantic.Checker.Calls.{symbol_of, is_variable, expr_slice_provenance}
use kai_cc.Semantic.Checker.Literals.{
  Context, no_context, unwrap_identifier, unwrap_index_assignment_root, is_concrete,
}
use kai_cc.Semantic.Checker.Operators.{Checked, Check, mismatch, fails}
use kai_cc.Semantic.Model.{SemanticErrorKind, SemanticModel, plain_error, span_key, type_of}
use kai_cc.Semantic.Symbol.{Symbol, SymbolKind}
use kai_cc.Semantic.Types.{
  ValueType, TypeKind, simple, types_equal, is_error, is_unresolved, is_slice,
}
use kai_cc.Semantic.Updates.{set_slice_provenance}
use kai_cc.Source.Location.{SourceSpan}

pub data Target : Type 0 where
  variable : ℕ → Symbol → Target
  index : Expr → Target
  unknown member invalid : Target

abbrev pub symbol_target : SymbolKind → ℕ → Symbol → Target
symbol_target SymbolKind.local id s = Target.variable id s
symbol_target SymbolKind.parameter id s = Target.variable id s
symbol_target _ id s = Target.invalid

abbrev pub place_target : Expr → Target
place_target (Expr.index object _ _) = Target.index object
place_target (Expr.member _ _ _) = Target.member
place_target _ = Target.invalid

unfoldable pub target_of : SemanticModel → Expr → Target
target_of m target = elim (unwrap_identifier target) [
  | some n ↦ elim (symbol_of m (some n)) [
    | some (id, s) ↦ symbol_target s.kind id s
    | none ↦ Target.unknown
  ]
  | none ↦ place_target target
]

-- What is done with the value, when the target's type is known: it is stored, or the assignment
-- has a result that does not wait for it. A store keeps the id of a variable.
pub data Plan : Type 0 where
  immutable : SourceSpan → Option SourceSpan → Plan
  through_slice : SourceSpan → Bool → Plan
  gives : ValueType → Plan
  deferred : Plan
  invalid : Plan
  store : ValueType → Option ℕ → Plan

unfoldable pub variable_plan : SourceSpan → ℕ → Symbol → ValueType → Plan
variable_plan span id s t =
    if not s.is_mutable
    then Plan.immutable span s.declared_at
    else (if is_error t
        then Plan.gives (simple TypeKind.error)
        else (if is_unresolved t then Plan.deferred else Plan.store t (some id)))

abbrev pub object_type : SemanticModel → Expr → ValueType
object_type m object = elim (type_of m (expr_span object)) [
  | some t ↦ t
  | none ↦ simple TypeKind.unresolved
]

unfoldable pub root_plan : Option (ℕ × Symbol) → SourceSpan → ValueType → Plan
root_plan none span t =
    Plan.gives (if is_error t then simple TypeKind.error else simple TypeKind.unresolved)
root_plan (some (_, s)) span t =
    if not (is_variable s.kind && is_concrete t)
    then Plan.gives (if is_error t then simple TypeKind.error else simple TypeKind.unresolved)
    else (if not s.is_mutable then Plan.immutable span s.declared_at else Plan.store t none)

unfoldable pub index_plan : SemanticModel → Expr → ValueType → Plan
index_plan m object t =
    if is_slice (object_type m object)
    then Plan.through_slice (expr_span object) (not (is_error t))
    else root_plan (symbol_of m (unwrap_index_assignment_root object)) (expr_span object) t

-- With the type that was found for the target.
abbrev pub plan_of : SemanticModel → Target → SourceSpan → ValueType → Plan
plan_of m (Target.variable id s) span t = variable_plan span id s t
plan_of m (Target.index object) span t = index_plan m object t
plan_of m Target.unknown span t = Plan.gives (simple TypeKind.error)
plan_of m Target.member span t = Plan.gives (simple TypeKind.unresolved)
plan_of m Target.invalid span t = Plan.invalid

abbrev pub value_context : Plan → Context
value_context (Plan.store t _) = (some t, none)
value_context _ = no_context

unfoldable pub stored_slice : Option ℕ → ValueType → Expr → SemanticModel → SemanticModel
stored_slice none t value m = m
stored_slice (some id) t value m =
    if is_slice t then set_slice_provenance id (expr_slice_provenance m value) m else m

unfoldable pub store_result : ValueType → Option ℕ → Expr → ValueType → SemanticModel → Checked
store_result t id value actual m =
    if is_error actual
    then (simple TypeKind.error, m)
    else (if not (is_unresolved actual) && not (types_equal actual t)
        then fails (mismatch (expr_span value) none t actual) m
        else (simple TypeKind.unit, stored_slice id t value m))

unfoldable pub plan_result : Plan → Expr → Expr → ValueType → SemanticModel → Checked
plan_result (Plan.immutable span declared_at) target value actual m =
    fails (plain_error SemanticErrorKind.assignment_to_immutable_binding span declared_at) m
plan_result (Plan.through_slice span reported) target value actual m =
    if reported
    then fails (plain_error SemanticErrorKind.assignment_through_immutable_slice span none) m
    else (simple TypeKind.error, m)
plan_result (Plan.gives t) target value actual m = (t, m)
plan_result Plan.deferred target value actual m =
    (if is_error actual then simple TypeKind.error else simple TypeKind.unit, m)
plan_result Plan.invalid target value actual m =
    fails (plain_error SemanticErrorKind.invalid_assignment_target (expr_span target) none) m
plan_result (Plan.store t id) target value actual m = store_result t id value actual m

-- The target is checked first, then the value.
unfoldable pub assignment_result : Expr → Check → Expr → Check → SemanticModel → Checked
assignment_result target check_target value check_value m =
    let (t, m1) = check_target no_context m in
    let plan = plan_of m1 (target_of m target) (expr_span target) t in
    let (actual, m2) = check_value (value_context plan) m1 in
    plan_result plan target value actual m2
