-- ===== src/Parser/Stmt/Steps.antt =====
-- src/ast/parse.rs: the branches of `make_stmt` on written statements that hold no others.
use Prim.Native.String.{String}
use enumc.Prelude.{
  ℕ, suc, ◌≤◌, ◌≡◌, refl, ◌∙◌, Bool, true, false, List, [], ◌∷◌, Option, none, arith,
}
use enumc.Lexer.Token.{ident, eq, open_paren, close_paren}
use enumc.Lexer.Match.{matches}
use enumc.Parser.Stream.{
  Tok, Parse, Parsed, done, then_at, ◌>>=◌, eat_if, eat_whitespace, cmp_seq, eat_seq, zip_all,
}
use enumc.Parser.Eat.{eat_if_kw}
use enumc.Parser.Types.Print.{tok, space, kept}
use enumc.Parser.Expr.{Expr, to_exprs}
use enumc.Parser.Expr.Tree.{make_expr}
use enumc.Parser.Expr.Chain.{
  Chain, Args, print_chain, print_args, meant_chain, meant_args, is_chain, are_args, is_stop,
  fuel_of_chain, fuel_of_args,
}
use enumc.Parser.Expr.Steps.{make_lh_expr-name, make_lh_expr-call}
use enumc.Parser.Expr.Loop.{eat_whitespace-chain}
use enumc.Parser.Expr.RoundTrip.{make_expr-print_chain, make_call-print_args}
use enumc.Parser.Stmt.{assign, assign_op, call, ret, exit}
use enumc.Parser.Stmt.State.{◌>=>◌, with_flag}
use enumc.Parser.Stmt.Block.{
  blanks, make_assignment, make_let_ty, make_return_stmt, ret_or_exit, make_lh_stmt, stmt_of,
  make_assign_stmt_expr, stmt_body, make_stmt,
}
use enumc.Parser.Stmt.Print.{Update, update_tok, update_op, semi_tok, head, is_stmt_name}
use enumc.Parser.Stmt.Starts.{
  make_stmt-semi, stmt_body-name, lh_stmt-name, stmt_name-kept, stmt_name-other, chain-semi,
}

module _ (number_of : String → ℕ) (parse_f64 : Bool → String → Option ℕ) where
  pub make_stmt-let :
      (fuel : ℕ) (name : String) (c : Chain) (rest : List Tok)
      → fuel_of_chain c ≤ fuel
      → kept name ≡ true
      → is_chain c ≡ true
      → make_stmt number_of parse_f64
          (suc (suc (suc fuel)))
          false
          (head "let" (head name (tok eq "=" ∷ space ∷ print_chain c (semi_tok ∷ space ∷ rest))))
        ≡ done
            (assign (Expr.ident (number_of name)) (meant_chain number_of c) none true, false)
            (space ∷ rest)
  make_stmt-let fuel name c rest le k h =
      make_stmt-semi number_of parse_f64 (suc (suc fuel)) _ rest _ assigned
    where
      assigned :
          stmt_body number_of parse_f64
            (suc (suc fuel))
            (make_stmt number_of parse_f64 (suc (suc fuel)))
            false
            (head "let" (head name (tok eq "=" ∷ space ∷ print_chain c (semi_tok ∷ space ∷ rest))))
          ≡ done
              (assign (Expr.ident (number_of name)) (meant_chain number_of c) none true, false)
              (semi_tok ∷ space ∷ rest)
      assigned =
          unfold stmt_body eat_if_kw make_assignment make_let_ty eat_if matches eat_whitespace in
          rw
            (make_lh_expr-name number_of false fuel
              (make_expr number_of parse_f64 false (suc (suc fuel))) name true (tok eq "=")
              (space ∷ print_chain c (semi_tok ∷ space ∷ rest)) k refl)
            (rw (eat_whitespace-chain c (semi_tok ∷ space ∷ rest)) (
              rw
                (make_expr-print_chain number_of parse_f64 false (suc (suc fuel)) c semi_tok
                  (space ∷ rest) (omega arith) h refl)
                refl))

  pub make_stmt-set :
      (fuel : ℕ) (name : String) (c : Chain) (rest : List Tok)
      → fuel_of_chain c ≤ fuel
      → is_stmt_name name ≡ true
      → is_chain c ≡ true
      → make_stmt number_of parse_f64
          (suc (suc (suc fuel)))
          false
          (head name (tok eq "=" ∷ space ∷ print_chain c (semi_tok ∷ space ∷ rest)))
        ≡ done
            (assign (Expr.ident (number_of name)) (meant_chain number_of c) none false, false)
            (space ∷ rest)
  make_stmt-set fuel name c rest le k h =
      make_stmt-semi number_of parse_f64 (suc (suc fuel)) _ rest _ (
        stmt_body-name number_of parse_f64 (suc (suc fuel))
          (make_stmt number_of parse_f64 (suc (suc fuel))) name _ (stmt_name-other name k)
        ∙ lh_stmt-name number_of parse_f64 fuel name true (tok eq "=")
            (space ∷ print_chain c (semi_tok ∷ space ∷ rest)) (stmt_name-kept name k) refl
        ∙ unfold stmt_of make_assign_stmt_expr cmp_seq eat_if matches eat_whitespace in
          rw (eat_whitespace-chain c (semi_tok ∷ space ∷ rest)) (
            rw
              (make_expr-print_chain number_of parse_f64 false (suc (suc fuel)) c semi_tok
                (space ∷ rest) (omega arith) h refl)
              refl))

  update-stop : (op : Update) → is_stop (update_tok op).kind ≡ true
  update-stop op = ground arith

  -- `+=` and so on
  assign-update :
      (rec : Bool → Parse Expr) (name : ℕ) (op : Update) (rest : List Tok)
      → (blanks >=> (λ u. with_flag (λ flag. stmt_of (rec flag) (Expr.ident name)))) false
          (update_tok op ∷ tok eq "=" ∷ space ∷ rest)
        ≡ then_at
            (then_at (eat_whitespace rest) (λ u.
              rec false
              >>= (λ rval. Parsed.done (assign_op (Expr.ident name) rval (update_op op)))))
            (λ s. Parsed.done (s, false))
  unfolding stmt_of make_assign_stmt_expr cmp_seq zip_all eat_seq eat_if matches eat_whitespace
  assign-update rec name Update.add rest = refl
  assign-update rec name Update.sub rest = refl
  assign-update rec name Update.mul rest = refl
  assign-update rec name Update.div rest = refl
  assign-update rec name Update.bit_or rest = refl
  assign-update rec name Update.bit_and rest = refl

  pub make_stmt-update :
      (fuel : ℕ) (name : String) (op : Update) (c : Chain) (rest : List Tok)
      → fuel_of_chain c ≤ fuel
      → is_stmt_name name ≡ true
      → is_chain c ≡ true
      → make_stmt number_of parse_f64
          (suc (suc (suc fuel)))
          false
          (head name (update_tok op ∷ tok eq "=" ∷ space ∷ print_chain c (semi_tok ∷ space ∷ rest)))
        ≡ done
            (
              assign_op (Expr.ident (number_of name)) (meant_chain number_of c) (update_op op),
              false,
            )
            (space ∷ rest)
  make_stmt-update fuel name op c rest le k h =
      make_stmt-semi number_of parse_f64 (suc (suc fuel)) _ rest _ (
        stmt_body-name number_of parse_f64 (suc (suc fuel))
          (make_stmt number_of parse_f64 (suc (suc fuel))) name _ (stmt_name-other name k)
        ∙ lh_stmt-name number_of parse_f64 fuel name true (update_tok op)
            (tok eq "=" ∷ space ∷ print_chain c (semi_tok ∷ space ∷ rest)) (stmt_name-kept name k)
            (update-stop op)
        ∙ assign-update (λ flag. make_expr number_of parse_f64 flag (suc (suc fuel)))
            (number_of name) op (print_chain c (semi_tok ∷ space ∷ rest))
        ∙ rw (eat_whitespace-chain c (semi_tok ∷ space ∷ rest)) (
            rw
              (make_expr-print_chain number_of parse_f64 false (suc (suc fuel)) c semi_tok
                (space ∷ rest) (omega arith) h refl)
              refl))

  pub make_stmt-invoke :
      (fuel : ℕ) (name : String) (args : Args) (rest : List Tok)
      → fuel_of_args args ≤ fuel
      → is_stmt_name name ≡ true
      → are_args args ≡ true
      → make_stmt number_of parse_f64 (suc (suc (suc fuel))) false (
          tok ident name
          ∷ tok open_paren "("
          ∷ print_args args (tok close_paren ")" ∷ semi_tok ∷ space ∷ rest))
        ≡ done
            (
              call (Expr.call (number_of name ∷ []) (to_exprs (meant_args number_of args)) []),
              false,
            )
            (space ∷ rest)
  make_stmt-invoke fuel name args rest le k h =
      make_stmt-semi number_of parse_f64 (suc (suc fuel)) _ rest _ (
        stmt_body-name number_of parse_f64 (suc (suc fuel))
          (make_stmt number_of parse_f64 (suc (suc fuel))) name _ (stmt_name-other name k)
        ∙ unfold make_lh_stmt eat_whitespace stmt_of matches in
          rw
            (make_lh_expr-call number_of false fuel
                (make_expr number_of parse_f64 false (suc (suc fuel))) name
                (print_args args (tok close_paren ")" ∷ semi_tok ∷ space ∷ rest))
                (stmt_name-kept name k)
              ∙ make_call-print_args number_of parse_f64 false (suc fuel) (number_of name ∷ []) args
                  semi_tok (space ∷ rest) (omega arith) h)
            refl)

  pub make_stmt-give :
      (fuel : ℕ) (c : Chain) (rest : List Tok)
      → fuel_of_chain c ≤ fuel
      → is_chain c ≡ true
      → make_stmt number_of parse_f64
          (suc fuel)
          false
          (head "return" (print_chain c (semi_tok ∷ space ∷ rest)))
        ≡ done (ret (meant_chain number_of c), false) (space ∷ rest)
  make_stmt-give fuel c rest le h = make_stmt-semi number_of parse_f64 fuel _ rest _ (
      unfold stmt_body eat_if_kw make_return_stmt eat_whitespace in
      rw (eat_whitespace-chain c (semi_tok ∷ space ∷ rest)) (
        unfold ret_or_exit in
        rw (ret_or_exit, chain-semi c (semi_tok ∷ space ∷ rest))
          (rw
            (make_expr-print_chain number_of parse_f64 false fuel c semi_tok (space ∷ rest) le h
              refl)
            refl)))

  pub make_stmt-leave :
      (fuel : ℕ) (rest : List Tok)
      → make_stmt number_of parse_f64
          (suc fuel)
          false
          (tok ident "return" ∷ semi_tok ∷ space ∷ rest)
        ≡ done (exit, false) (space ∷ rest)
  unfolding make_stmt stmt_body eat_if_kw make_return_stmt ret_or_exit eat_whitespace eat_if matches
  make_stmt-leave fuel rest = refl

  pub make_stmt-quit :
      (fuel : ℕ) (rest : List Tok)
      → make_stmt number_of parse_f64 (suc fuel) false (tok ident "exit" ∷ semi_tok ∷ space ∷ rest)
        ≡ done (exit, false) (space ∷ rest)
  unfolding make_stmt stmt_body eat_if_kw eat_whitespace eat_if matches
  make_stmt-quit fuel rest = refl
