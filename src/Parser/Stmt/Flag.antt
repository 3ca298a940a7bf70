-- ===== src/Parser/Stmt/Flag.antt =====
-- src/ast/parse.rs: the flag `in_match_stmt` is off behind every statement that starts with it off.
use Prim.Native.String.{String}
use enumc.Prelude.{ℕ, zero, suc, refl, Bool, true, false, List, Option, inl, inr, Bool-cases}
use enumc.Lexer.Token.{TokenKind}
use enumc.Lexer.Match.{TokenMatch, matches}
use enumc.Parser.Stream.{Tok, curr_kind, eat_if}
use enumc.Parser.Expr.Left.{make_lh_expr}
use enumc.Parser.Expr.Tree.{make_expr, make_builtin}
use enumc.Parser.Stmt.{Stmt, exit}
use enumc.Parser.Stmt.State.{Flagged, lift, return, ◌>=>◌}
use enumc.Parser.Stmt.Asm.{make_asm_stmt}
use enumc.Parser.Stmt.Block.{
  blanks, make_block, expr, lh_expr, make_assignment, make_if_stmt, make_while_stmt,
  make_match_stmt, ret_or_exit, make_return_stmt, make_lh_stmt, stmt_of, expr_stmt_at,
  make_expr_stmt, make_flagged_match, stmt_body, make_stmt,
}
use enumc.Parser.Stmt.Keeps.{
  Off, KeepsOff, KeepsOff-lift, KeepsOff-with, KeepsOff-return, KeepsOff-then, KeepsOff-blanks,
  KeepsOff-eat, KeepsOff-eaten, KeepsOff-kw, make_block-Off, reset-Off,
}

module _ (number : String → ℕ) (parse_f64 : Bool → String → Option ℕ) where
  KeepsOff-expr : (fuel : ℕ) → KeepsOff (expr number parse_f64 fuel)
  KeepsOff-expr fuel = KeepsOff-with (λ flag. make_expr number parse_f64 flag fuel)

  KeepsOff-lh_expr : (fuel : ℕ) → KeepsOff (lh_expr number parse_f64 fuel)
  KeepsOff-lh_expr fuel =
      KeepsOff-with (λ flag. make_lh_expr number flag fuel (make_expr number parse_f64 flag fuel))

  make_assignment-Off : (fuel : ℕ) → KeepsOff (make_assignment number parse_f64 fuel)
  unfolding make_assignment
  make_assignment-Off fuel = KeepsOff-blanks _ (
      KeepsOff-then _ _ (KeepsOff-lh_expr fuel) (λ lval. KeepsOff-blanks _ (
        KeepsOff-then _ _ (KeepsOff-lift _) (λ ty. KeepsOff-eat _ _ (
          KeepsOff-blanks _
            (KeepsOff-then _ _ (KeepsOff-expr fuel) (λ rval. KeepsOff-return _)))))))

  make_if_stmt-Off :
      (fuel : ℕ) (rec : Flagged Stmt)
      → KeepsOff rec
      → KeepsOff (make_if_stmt number parse_f64 fuel rec)
  unfolding make_if_stmt
  make_if_stmt-Off fuel rec h = KeepsOff-blanks _ (
      KeepsOff-then _ _ (KeepsOff-expr fuel) (λ cond. KeepsOff-blanks _ (
        KeepsOff-then _ _ (make_block-Off fuel rec h) (λ blk. KeepsOff-blanks _ (
          KeepsOff-kw "else" _ _
            (KeepsOff-blanks _
              (KeepsOff-then _ _ (make_block-Off fuel rec h) (λ e. KeepsOff-return _)))
            (KeepsOff-return _))))))

  make_while_stmt-Off :
      (fuel : ℕ) (rec : Flagged Stmt)
      → KeepsOff rec
      → KeepsOff (make_while_stmt number parse_f64 fuel rec)
  unfolding make_while_stmt
  make_while_stmt-Off fuel rec h = KeepsOff-blanks _ (
      KeepsOff-then _ _ (KeepsOff-expr fuel) (λ cond. KeepsOff-blanks _ (
        KeepsOff-then _ _ (make_block-Off fuel rec h)
          (λ blk. KeepsOff-blanks _ (KeepsOff-return _)))))

  ret_expr-Off : (fuel : ℕ) → KeepsOff (expr number parse_f64 fuel >=> (λ e. return (Stmt.ret e)))
  ret_expr-Off fuel = KeepsOff-then _ _ (KeepsOff-expr fuel) (λ e. KeepsOff-return (Stmt.ret e))

  ret_or_exit-Off : (fuel : ℕ) → KeepsOff (ret_or_exit number parse_f64 fuel)
  unfolding ret_or_exit KeepsOff
  ret_or_exit-Off fuel toks = elim (Bool-cases (matches TokenMatch.semi (curr_kind toks))) [
    | inl e ↦ rw (ret_or_exit, e) refl
    | inr e ↦ rw (ret_or_exit, e) (ret_expr-Off fuel toks)
  ]

  make_return_stmt-Off : (fuel : ℕ) → KeepsOff (make_return_stmt number parse_f64 fuel)
  unfolding make_return_stmt
  make_return_stmt-Off fuel = KeepsOff-blanks _ (ret_or_exit-Off fuel)

  make_lh_stmt-Off : (fuel : ℕ) → KeepsOff (make_lh_stmt number parse_f64 fuel)
  unfolding make_lh_stmt
  make_lh_stmt-Off fuel = KeepsOff-then _ _ (KeepsOff-lh_expr fuel) (λ e.
      KeepsOff-blanks _ (KeepsOff-with (λ flag. stmt_of (make_expr number parse_f64 flag fuel) e)))

  block_stmt-Off :
      (fuel : ℕ) (rec : Flagged Stmt)
      → KeepsOff rec
      → KeepsOff (make_block fuel rec >=> (λ blk. return (Stmt.block blk)))
  block_stmt-Off fuel rec h =
      KeepsOff-then _ _ (make_block-Off fuel rec h) (λ blk. KeepsOff-return (Stmt.block blk))

  expr_stmt_at-Off :
      (kind : TokenKind) (fuel : ℕ) (rec : Flagged Stmt)
      → KeepsOff rec
      → KeepsOff (expr_stmt_at number parse_f64 kind fuel rec)
  unfolding expr_stmt_at KeepsOff
  expr_stmt_at-Off TokenKind.ident fuel rec h toks = make_lh_stmt-Off fuel toks
  expr_stmt_at-Off TokenKind.star fuel rec h toks = make_lh_stmt-Off fuel toks
  expr_stmt_at-Off TokenKind.open_brace fuel rec h toks = block_stmt-Off fuel rec h toks
  expr_stmt_at-Off kind fuel rec h toks = tt

  make_expr_stmt-Off :
      (fuel : ℕ) (rec : Flagged Stmt)
      → KeepsOff rec
      → KeepsOff (make_expr_stmt number parse_f64 fuel rec)
  unfolding make_expr_stmt KeepsOff
  make_expr_stmt-Off fuel rec h toks = expr_stmt_at-Off (curr_kind toks) fuel rec h toks

  -- A match leaves the flag off, also where it was on before: a match in an arm of another one turns it off for
  -- the arms behind.
  pub make_flagged_match-Off :
      (fuel : ℕ) (rec : Flagged Stmt) (flag : Bool) (toks : List Tok)
      → Off (make_flagged_match number parse_f64 fuel rec flag toks)
  unfolding make_flagged_match
  make_flagged_match-Off fuel rec flag toks =
      reset-Off (make_match_stmt number parse_f64 fuel rec true toks) (λ s. s)

  flagged_match-Off :
      (fuel : ℕ) (rec : Flagged Stmt) → KeepsOff (make_flagged_match number parse_f64 fuel rec)
  unfolding KeepsOff
  flagged_match-Off fuel rec = make_flagged_match-Off fuel rec false

  stmt_body-Off :
      (fuel : ℕ) (rec : Flagged Stmt)
      → KeepsOff rec
      → KeepsOff (stmt_body number parse_f64 fuel rec)
  unfolding stmt_body
  stmt_body-Off fuel rec h = KeepsOff-kw "let" _ _ (make_assignment-Off fuel) (
      KeepsOff-kw "if" _ _ (make_if_stmt-Off fuel rec h) (
        KeepsOff-kw "while" _ _ (make_while_stmt-Off fuel rec h) (
          KeepsOff-kw "return" _ _ (make_return_stmt-Off fuel) (
            KeepsOff-kw "match" _ _ (flagged_match-Off fuel rec) (
              KeepsOff-kw "asm" _ _
                (KeepsOff-then _ _ (KeepsOff-lift (make_asm_stmt number parse_f64 fuel))
                  (λ assembly. KeepsOff-return _))
                (KeepsOff-kw "exit" _ _ (KeepsOff-blanks _ (KeepsOff-return exit)) (
                  KeepsOff-eaten TokenMatch.at _ _
                    (KeepsOff-then _ _ (KeepsOff-lift (make_builtin number parse_f64 false fuel))
                      (λ b. KeepsOff-return _))
                    (make_expr_stmt-Off fuel rec h))))))))

  stmt_round-Off :
      (fuel : ℕ) (rec : Flagged Stmt)
      → KeepsOff rec
      → KeepsOff (
          stmt_body number parse_f64 fuel rec
          >=> (λ s. blanks >=> (λ u. lift (eat_if TokenMatch.semi) >=> (λ u. return s))))
  stmt_round-Off fuel rec h =
      KeepsOff-then _ _ (stmt_body-Off fuel rec h)
        (λ s. KeepsOff-blanks _ (KeepsOff-eat TokenMatch.semi _ (KeepsOff-return s)))

  KeepsOff-stmt : (fuel : ℕ) → KeepsOff (make_stmt number parse_f64 fuel)
  unfolding make_stmt KeepsOff
  KeepsOff-stmt zero toks = tt
  KeepsOff-stmt (suc fuel) toks =
      stmt_round-Off fuel (make_stmt number parse_f64 fuel) (KeepsOff-stmt fuel) toks

  -- A statement that starts with the flag `in_match_stmt` off leaves it off, whatever the tokens are.
  pub make_stmt-Off :
      (fuel : ℕ) (toks : List Tok) → Off (make_stmt number parse_f64 fuel false toks)
  unfolding KeepsOff
  make_stmt-Off fuel toks = KeepsOff-stmt fuel toks
