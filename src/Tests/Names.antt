-- ===== src/Tests/Names.antt =====
-- Runs of the semantic analyzer on a file with mistakes.
use kai_cc.Ast.Decl.{SourceFile}
use kai_cc.Ast.Expr.{Expr, Identifier, LiteralKind}
use kai_cc.Ast.Stmt.{Stmt, Stmts, block_stmt}
use kai_cc.Ast.TypeSyntax.{TypeSyntax}
use kai_cc.Base.{
  some, ℕ, List, ◌∷◌, [], ◌≡◌, ◌↔◌, refl, none, codes, Bytes, false, true, arith, index_where,
}
use kai_cc.Lexer.Keywords.{equal}
use kai_cc.Semantic.Analyzer.FileReports.{analyze-problems}
use kai_cc.Semantic.Analyzer.Passes.{analyze}
use kai_cc.Semantic.Analyzer.Preserved.{empty_model-IsSound}
use kai_cc.Semantic.Analyzer.Problems.{
  Problem, file_problems, has, with_name, is_primitive, type_problems, expr_problems,
  declaration_problems, declared, statement_problems, params_type_problems, heads_problems,
  function_names, params_problems, param_names, bodies_problems,
}
use kai_cc.Semantic.Analyzer.Reports.{reports}
use kai_cc.Semantic.Analyzer.Run.{analyze-IsSound}
use kai_cc.Semantic.Analyzer.Steps.{IsSound}
use kai_cc.Semantic.Analyzer.TypeNames.{resolve_type_syntax}
use kai_cc.Semantic.Checker.Functions.{check_types}
use kai_cc.Semantic.Checker.Sound.{check_types-Typed}
use kai_cc.Semantic.Checker.Typed.{Typed}
use kai_cc.Semantic.Model.{
  SemanticModel, SemanticErrorKind, ArrayTypeInfo, empty_model, compound, intern_array,
}
use kai_cc.Semantic.Shapes.Interning.{types_equal-Denotes}
use kai_cc.Semantic.Shapes.Spelling.{Resolved, spelled, resolve_type_syntax-Resolved}
use kai_cc.Semantic.Shapes.Tables.{intern_array-Interned}
use kai_cc.Semantic.Shapes.{Shape, Denotes, IsCanonical}
use kai_cc.Semantic.TypeName.Reading.{read_shape}
use kai_cc.Semantic.TypeName.RoundTrip.{type_name-read_shape}
use kai_cc.Semantic.TypeName.{type_name}
use kai_cc.Semantic.Types.{TypeKind, simple, types_equal, kind_value}
use kai_cc.Source.Location.{SourceSpan}
use kai_cc.Source.Text.{text}

-- A second `x`, no type `q`, and no `z`.
abbrev mistaken : Bytes
mistaken = codes "fn f(x:[i8;2],x:q){z;x;f}"

abbrev at : ℕ → ℕ → SourceSpan
at lo hi = record {
  begin = record { file = 0; offset = lo };
  end = record { file = 0; offset = hi };
}

abbrev named : ℕ → ℕ → Identifier
named lo hi = record { span = at lo hi }

abbrev two_bytes : TypeSyntax
two_bytes =
    TypeSyntax.array (TypeSyntax.named (named 8 10) (at 8 10))
      (Expr.literal LiteralKind.integer (at 11 12)) (at 7 13)

abbrev use_of : ℕ → ℕ → Stmt
use_of lo hi = Stmt.expr (Expr.identifier (named lo hi) (at lo hi)) (at lo hi)

abbrev mistaken_tree : SourceFile
mistaken_tree = record {
  file = 0;
  declarations =
      record {
        is_public = false;
        name = named 3 4;
        params =
            record { name = named 5 6; type = two_bytes; span = at 5 13 }
            ∷ record {
              name = named 14 15;
              type = TypeSyntax.named (named 16 17) (at 16 17);
              span = at 14 17;
            }
            ∷ [];
        return_type = none;
        body =
            block_stmt
              (Stmts.cons (use_of 19 20)
                (Stmts.cons (use_of 21 22) (Stmts.cons (use_of 23 24) Stmts.nil)))
              (at 18 25);
        span = at 0 25;
      }
      ∷ [];
  span = at 0 25;
}

abbrev mistakes : List Problem
mistakes =
    (SemanticErrorKind.unknown_type, at 16 17)
    ∷ (SemanticErrorKind.duplicate_symbol, at 14 15)
    ∷ (SemanticErrorKind.unknown_identifier, at 19 20)
    ∷ []

file_problems-mistaken : file_problems mistaken mistaken_tree ≡ mistakes
unfolding file_problems has with_name is_primitive type_problems expr_problems declaration_problems
    declared statement_problems params_type_problems heads_problems function_names params_problems
    param_names bodies_problems text equal
file_problems-mistaken = refl

analyze-problems_example :
    reports (analyze mistaken mistaken_tree) ≡ file_problems mistaken mistaken_tree
analyze-problems_example = analyze-problems mistaken mistaken_tree

analyze-IsSound_example : IsSound mistaken (analyze mistaken mistaken_tree)
analyze-IsSound_example = analyze-IsSound mistaken mistaken_tree

resolve_type_syntax-Resolved_example :
    Resolved empty_model
      (resolve_type_syntax mistaken two_bytes empty_model).1
      (resolve_type_syntax mistaken two_bytes empty_model).0
      (spelled mistaken two_bytes)
resolve_type_syntax-Resolved_example =
    resolve_type_syntax-Resolved mistaken two_bytes empty_model
      (empty_model-IsSound mistaken).is_canonical

abbrev pair_info : ArrayTypeInfo
pair_info = record { element_type = simple TypeKind.i8; length = 2 }

i8-Denotes :
    (arrays : List ArrayTypeInfo) → Denotes arrays [] (simple TypeKind.i8) (Shape.plain TypeKind.i8)
unfolding kind_value
i8-Denotes arrays = Denotes.plain TypeKind.i8 (omega arith) refl

pair-IsCanonical : IsCanonical (pair_info ∷ []) []
unfolding intern_array index_where
pair-IsCanonical =
    (intern_array-Interned empty_model (empty_model-IsSound []).is_canonical (simple TypeKind.i8)
      (Shape.plain TypeKind.i8) (i8-Denotes []) 2).is_canonical

types_equal-Denotes_example :
    (types_equal (compound TypeKind.array 0) (simple TypeKind.i8) ≡ true)
    ↔ (Shape.array (Shape.plain TypeKind.i8) 2 ≡ Shape.plain TypeKind.i8)
types_equal-Denotes_example =
    types_equal-Denotes pair-IsCanonical
      (Denotes.array pair_info refl refl refl (i8-Denotes (pair_info ∷ [])))
      (i8-Denotes (pair_info ∷ []))

check_types-Typed_example :
    Typed (check_types mistaken mistaken_tree (analyze mistaken mistaken_tree))
check_types-Typed_example = check_types-Typed mistaken mistaken_tree

abbrev pair_model : SemanticModel
pair_model = record empty_model { array_types = pair_info ∷ [] }

type_name-read_shape_example :
    (name : Bytes) × (type_name 2 pair_model (compound TypeKind.array 0) ≡ some name)
    × (read_shape 2 name ≡ some (Shape.array (Shape.plain TypeKind.i8) 2, []))
type_name-read_shape_example =
    type_name-read_shape pair_model (compound TypeKind.array 0)
      (Shape.array (Shape.plain TypeKind.i8) 2) 2
      (Denotes.array pair_info refl refl refl (i8-Denotes (pair_info ∷ []))) (omega arith)
