-- ===== src/Tests/Types.antt =====
-- Runs of the type checker's rules.
use kai_cc.Base.{◌≡◌, ◌↔◌, none, some, codes, true}
use kai_cc.Semantic.Checker.Literals.{literal_target, check_integer_literal_value}
use kai_cc.Semantic.Checker.Ranges.{
  IsNumber, IsRepresentable, width, number_after, check_integer_literal_value-IsRepresentable,
}
use kai_cc.Semantic.Model.{empty_model}
use kai_cc.Semantic.Types.{TypeKind, simple}
use kai_cc.Source.Location.{SourceSpan}

abbrev place : SourceSpan
place = record { begin = record { file = 0; offset = 1 }; end = record { file = 0; offset = 4 } }

-- `-128` as an i8.
check_integer_literal_value-IsRepresentable_example :
    (check_integer_literal_value
        (codes "128")
        true
        place
        (some (simple TypeKind.i8), none)
        empty_model
      ≡ (literal_target (some (simple TypeKind.i8)), empty_model))
    ↔ (IsNumber (codes "128")
        × IsRepresentable
            (width (literal_target (some (simple TypeKind.i8))).kind)
            true
            (number_after 0 (codes "128")))
check_integer_literal_value-IsRepresentable_example =
    check_integer_literal_value-IsRepresentable (codes "128") true place
      (some (simple TypeKind.i8), none) empty_model
