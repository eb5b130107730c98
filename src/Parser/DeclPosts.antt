-- ===== src/Parser/DeclPosts.antt =====
-- `parseDeclaration` and its parts, in terms of what a rule promises.
use kai_cc.Parser.Input.{OpenFile}
use kai_cc.Ast.Decl.{Param, FunctionDecl}
use kai_cc.Ast.Stmt.{block_span}
use kai_cc.Ast.TypeSyntax.{type_span}
use kai_cc.Base.{
  ℕ, zero, suc, ◌<◌, ◌≤◌, ◌≡◌, refl, arith, true, false, inl, inr, Bool-cases, Bool, none, [], ◌∷◌,
  List,
}
use kai_cc.Parser.BlockPosts.{parse_block-Post}
use kai_cc.Parser.Declarations.{
  params_loop, parse_param_list, parse_function_decl, declaration_of, parse_declaration,
}
use kai_cc.Parser.Layout.{InOrder, Laid}
use kai_cc.Parser.Progress.{IsReady, Reads, at, remaining, advanced-Reads}
use kai_cc.Parser.Rules.{
  Post, returns, ◌⟫◌, not_end, expect-Post, weaken, match_token-Post, fail-Post,
}
use kai_cc.Parser.State.{Parser, ParseErrorKind, advanced, check}
use kai_cc.Parser.StmtPosts.{optional_type-Post}
use kai_cc.Parser.TreeLayout.{IsType, IsOptionalType, optional_type_span, IsBlock}
use kai_cc.Parser.TypePosts.{parse_type_syntax-Post}
use kai_cc.Source.Location.{SourceSpan, SourceLocation}
use kai_cc.Token.{TokenKind, ◌is_kind◌}

abbrev pub param_spans : List Param → List SourceSpan → List SourceSpan
param_spans [] ss = ss
param_spans (x ∷ xs) ss = x.span ∷ param_spans xs ss

abbrev pub AreParams : OpenFile → List Param → Type 0
AreParams file [] = Unit
AreParams file (x ∷ xs) =
    IsType file x.type × Laid file x.span (x.name.span ∷ type_span x.type ∷ []) × AreParams file xs

pub record IsFunction (file : OpenFile) (f : FunctionDecl) : Type 0 where
  pub are_params : AreParams file f.params
  pub is_return : IsOptionalType file f.return_type
  pub is_body : IsBlock file f.body
  pub laid : Laid file f.span (
      f.name.span
      ∷ param_spans f.params (optional_type_span f.return_type (block_span f.body ∷ [])))

record ParsedParams (file : OpenFile) (p : Parser) (xs : List Param) (p' : Parser) : Type 0 where
  reads : Reads file 0 p p'
  are_params : AreParams file xs
  in_order :
      (lo hi : ℕ) (ss : List SourceSpan)
      → lo ≤ at p
      → ((l : ℕ) → l ≤ at p' → InOrder file l ss hi)
      → InOrder file lo (param_spans xs ss) hi

params_loop-Post :
    (file : OpenFile) (fuel : ℕ) (p : Parser)
    → IsReady file p
    → remaining p < fuel
    → Post file (ParsedParams file p) (params_loop fuel p)
unfolding params_loop
params_loop-Post file zero p r h = absurd (omega arith)
params_loop-Post file (suc fuel) p r h =
    expect-Post file TokenKind.identifier p r (λ x. cc x) ⟫ λ name p1 named.
    expect-Post file TokenKind.colon p1 named.reads.ready (λ x. cc x) ⟫ λ colon p2 took.
    parse_type_syntax-Post file (suc fuel) p2 took.reads.ready (omega arith) ⟫ λ t p3 typed.
    match_token-Post TokenKind.comma _ p3
      (λ is_comma.
        let comma = advanced-Reads file p3 typed.reads.ready (not_end is_comma (λ x. cc x)) in
        params_loop-Post file fuel (advanced p3) comma.ready (omega arith) ⟫ λ xs p4 later.
        returns (record {
          reads = ground arith;
          are_params = (typed.is_type, omega arith, later.are_params);
          in_order = λ lo hi ss l k. (
            named.covers.begin_file,
            typed.covers.end_file,
            omega arith,
            omega arith,
            later.in_order _ hi ss (omega arith) k,
          );
        }))
      (returns (record {
        reads = ground arith;
        are_params = (typed.is_type, omega arith, tt);
        in_order = λ lo hi ss l k. (
          named.covers.begin_file,
          typed.covers.end_file,
          omega arith,
          omega arith,
          k _ (omega arith),
        );
      }))

param_list-Post :
    (file : OpenFile) (fuel : ℕ) (p : Parser)
    → IsReady file p
    → remaining p < fuel
    → Post file (ParsedParams file p) (parse_param_list fuel p)
unfolding parse_param_list check
param_list-Post file fuel p r h = elim (Bool-cases (p.current.kind is_kind TokenKind.right_paren)) [
  | inl e ↦ rw e (
      returns (record {
        reads = record { ready = r; forward = omega arith; fewer = omega arith };
        are_params = tt;
        in_order = λ lo hi ss l k. k lo l;
      }))
  | inr e ↦ rw e (params_loop-Post file fuel p r h)
]

-- A function declaration whose span begins at `b`, read from `p` on.
pub record ParsedFunction (file : OpenFile) (b : SourceLocation) (p : Parser) (f : FunctionDecl)
    (p' : Parser) : Type 0 where
  pub reads : Reads file 1 p p'
  pub is_function : IsFunction file f
  pub begin : f.span.begin ≡ b
  pub end_file : f.span.end.file ≡ file.id
  pub ordered : b.offset ≤ f.span.end.offset
  pub stops : f.span.end.offset ≤ at p'

module _ (file : OpenFile) (fuel : ℕ) where
  function_decl-Post :
      (is_public : Bool) (b : SourceLocation) (p : Parser)
      → b.file ≡ file.id
      → b.offset ≤ at p
      → IsReady file p
      → remaining p < fuel
      → Post file (ParsedFunction file b p) (parse_function_decl fuel is_public b p)
  unfolding parse_function_decl
  function_decl-Post is_public b p bf bo r h =
      expect-Post file TokenKind.kw_fn p r (λ x. cc x) ⟫ λ keyword p1 took.
      expect-Post file TokenKind.identifier p1 took.reads.ready (λ x. cc x) ⟫ λ name p2 named.
      expect-Post file TokenKind.left_paren p2 named.reads.ready (λ x. cc x) ⟫ λ lp p3 opened.
      param_list-Post file fuel p3 opened.reads.ready (omega arith) ⟫ λ xs p4 params.
      expect-Post file TokenKind.right_paren p4 params.reads.ready (λ x. cc x) ⟫ λ rp p5 closed.
      optional_type-Post file fuel TokenKind.arrow p5 (λ x. cc x) closed.reads.ready (omega arith)
      ⟫ λ t p6 result.
          parse_block-Post file fuel p6 result.reads.ready (omega arith) ⟫ λ body p7 block.
          returns (record {
            reads = ground arith;
            is_function = record {
              are_params = params.are_params;
              is_return = result.is_type;
              is_body = block.is_block;
              laid = (
                bf,
                block.covers.end_file,
                (
                  named.covers.begin_file,
                  named.covers.end_file,
                  omega arith,
                  named.covers.ordered,
                  params.in_order _ _ _ (omega arith)
                      (λ l u. result.in_order _ _ _ (omega arith) (λ l' u'. omega arith)),
                ),
              );
            };
            begin = refl;
            end_file = block.covers.end_file;
            ordered = omega arith;
            stops = block.covers.stops;
          })

  declaration_of-Post :
      (is_public : Bool) (b : SourceLocation) (k : TokenKind) (p : Parser)
      → b.file ≡ file.id
      → b.offset ≤ at p
      → IsReady file p
      → remaining p < fuel
      → Post file (ParsedFunction file b p) (declaration_of fuel is_public b k p)
  unfolding declaration_of
  declaration_of-Post is_public b TokenKind.kw_fn p bf bo r h =
      function_decl-Post is_public b p bf bo r h
  declaration_of-Post is_public b TokenKind.kw_struct p bf bo r h =
      fail-Post ParseErrorKind.unsupported_syntax none p r (λ x. cc x)
        (λ k none_given. cc none_given)
  declaration_of-Post is_public b TokenKind.kw_enum p bf bo r h =
      fail-Post ParseErrorKind.unsupported_syntax none p r (λ x. cc x)
        (λ k none_given. cc none_given)
  declaration_of-Post is_public b TokenKind.kw_use p bf bo r h =
      fail-Post ParseErrorKind.unsupported_syntax none p r (λ x. cc x)
        (λ k none_given. cc none_given)
  declaration_of-Post is_public b _ p bf bo r h =
      fail-Post ParseErrorKind.unexpected_token none p r (λ x. cc x) (λ k none_given. cc none_given)

  pub declaration-Post :
      (p : Parser)
      → IsReady file p
      → remaining p < fuel
      → Post file (ParsedFunction file p.current.span.begin p) (parse_declaration fuel p)
  unfolding parse_declaration
  declaration-Post p r h =
      match_token-Post TokenKind.kw_pub _ p
        (λ is_pub.
          let reads = advanced-Reads file p r (not_end is_pub (λ x. cc x)) in
          weaken (λ f p' d. widen reads d)
            (declaration_of-Post true p.current.span.begin _ (advanced p) r.begin_file reads.forward
              reads.ready (omega arith)))
        (declaration_of-Post false p.current.span.begin _ p r.begin_file (omega arith) r h)
    where
      widen :
          {b : SourceLocation} {q : Parser} {f : FunctionDecl} {p' : Parser}
          → Reads file 1 p q
          → ParsedFunction file b q f p'
          → ParsedFunction file b p f p'
      widen reads d = record {
        reads = ground arith;
        is_function = d.is_function;
        begin = d.begin;
        end_file = d.end_file;
        ordered = d.ordered;
        stops = d.stops;
      }
