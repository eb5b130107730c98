-- ===== src/Semantic/Flow/Missing.antt =====
-- `checkFunctionDecl` and `check` of compiler/src/semantic/ControlFlowAnalyzer.cpp, in terms of
-- paths.
use kai_cc.Ast.Decl.{FunctionDecl}
use kai_cc.Base.{false, Bool-cases, ◌≡◌, ◌≢◌, ◌↔◌, ◌⊎◌, inl, inr, refl, [], ◌∷◌, ◌++◌, List}
use kai_cc.Semantic.Flow.Exact.{analyze_block-RunsBlock}
use kai_cc.Semantic.Flow.Paths.{falls, RunsBlock}
use kai_cc.Semantic.Flow.{
  FlowResult, falls_through, always_returns, MissingReturn, check, analyze_block, is_exempt,
  return_type_span, check_function_decl,
}
use kai_cc.Semantic.Types.{ValueType}

reported :
    (signature : FunctionDecl → ValueType) (fn : FunctionDecl)
    → is_exempt (signature fn) ≡ false
    → analyze_block fn.body ≡ falls_through
    → check_function_decl signature fn ≢ []
unfolding check_function_decl
reported signature fn counts ends empty =
    let one : check_function_decl signature fn
        ≡ record { span = return_type_span fn; return_type = signature fn } ∷ [] =
      rw (counts, ends) refl in
    cc (one, empty)

flow_cases : (r : FlowResult) → (r ≡ falls_through) ⊎ (r ≡ always_returns)
flow_cases falls_through = inl refl
flow_cases always_returns = inr refl

-- A function gets an error if and only if its return type is neither erroneous, unresolved nor
-- unit, and some path of its body runs off the end.
pub check_function_decl-RunsBlock :
    (signature : FunctionDecl → ValueType) (fn : FunctionDecl)
    → (check_function_decl signature fn ≢ [])
      ↔ ((is_exempt (signature fn) ≡ false) × RunsBlock fn.body falls)
unfolding check_function_decl
check_function_decl-RunsBlock signature fn = (
  (λ some_error. elim (Bool-cases (is_exempt (signature fn))) [
    | inl exempt ↦ absurd (some_error (rw exempt refl))
    | inr counts ↦ elim (flow_cases (analyze_block fn.body)) [
      | inl ends ↦ (counts, (analyze_block-RunsBlock fn.body).0 ends)
      | inr returns ↦ absurd (some_error (rw (counts, returns) refl))
    ]
  ]),
  (λ h. reported signature fn h.0 ((analyze_block-RunsBlock fn.body).1 h.1)),
)

-- Every function of a file that has to return a value does so on every path.
abbrev pub IsComplete : (FunctionDecl → ValueType) → List FunctionDecl → Type 0
IsComplete signature [] = Unit
IsComplete signature (fn ∷ fns) =
    (¬ ((is_exempt (signature fn) ≡ false) × RunsBlock fn.body falls)) × IsComplete signature fns

append-empty : (xs ys : List MissingReturn) → xs ++ ys ≡ [] → (xs ≡ []) × (ys ≡ [])
append-empty [] ys e = (refl, e)
append-empty (x ∷ xs) ys e = cc e

empty_cases : (xs : List MissingReturn) → (xs ≡ []) ⊎ (xs ≢ [])
empty_cases [] = inl refl
empty_cases (x ∷ xs) = inr (λ e. cc e)

silent-IsComplete :
    (signature : FunctionDecl → ValueType) (fns : List FunctionDecl)
    → check signature fns ≡ []
    → IsComplete signature fns
unfolding check
silent-IsComplete signature [] e = tt
silent-IsComplete signature (fn ∷ fns) e =
    let parts = append-empty (check_function_decl signature fn) (check signature fns) e in
    (
      (λ h. (check_function_decl-RunsBlock signature fn).1 h parts.0),
      silent-IsComplete signature fns parts.1,
    )

IsComplete-silent :
    (signature : FunctionDecl → ValueType) (fns : List FunctionDecl)
    → IsComplete signature fns
    → check signature fns ≡ []
unfolding check
IsComplete-silent signature [] h = refl
IsComplete-silent signature (fn ∷ fns) h = elim (empty_cases (check_function_decl signature fn)) [
  | inl e ↦ rw e (IsComplete-silent signature fns h.1)
  | inr ne ↦ absurd (h.0 ((check_function_decl-RunsBlock signature fn).0 ne))
]

-- The pass reports nothing for the functions of a file if and only if no function whose return
-- type is neither erroneous, unresolved nor unit has a path through its body that runs off the
-- end.
pub check-IsComplete :
    (signature : FunctionDecl → ValueType) (fns : List FunctionDecl)
    → (check signature fns ≡ []) ↔ IsComplete signature fns
check-IsComplete signature fns = (silent-IsComplete signature fns, IsComplete-silent signature fns)
