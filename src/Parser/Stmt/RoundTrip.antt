-- ===== src/Parser/Stmt/RoundTrip.antt =====
-- src/ast/parse.rs: `make_stmt` and `make_block` read written statements.
use Prim.Native.String.{String}
use enumc.Prelude.{
  ℕ, zero, suc, ◌≤◌, ◌≡◌, refl, ◌∙◌, Bool, true, false, ◌&&◌, List, ◌∷◌, Option, arith,
}
use enumc.Parser.Stream.{Tok, done, eat_whitespace}
use enumc.Parser.Eat.{eat_if_kw}
use enumc.Parser.Types.Print.{space}
use enumc.Parser.Types.Segs.{and-left, and-right}
use enumc.Parser.Expr.{Expr}
use enumc.Parser.Expr.Chain.{
  Chain, group, gap, print_term, meant, is_chain, are_args, fuel_of_chain,
}
use enumc.Parser.Expr.Steps.{eat_whitespace-gap}
use enumc.Parser.Expr.Loop.{eat_whitespace-term}
use enumc.Parser.Expr.RoundTrip.{make_expr-print_group}
use enumc.Parser.Stmt.{Stmt, Stmts, while, if_else, no_else, els, to_stmts}
use enumc.Parser.Stmt.State.{Flagged, ◌>=>◌, return, when_kw}
use enumc.Parser.Stmt.Block.{
  blanks, expr, make_block, make_while_stmt, make_if_stmt, stmt_body, make_stmt,
}
use enumc.Parser.Stmt.Print.{
  Written, let_in, set, update, invoke, give, leave, quit, repeat, branch, choose, Body, only, more,
  head, opened, print, print_body, print_block, meant_stmt, meant_stmts, is_stmt_name, is_written,
  is_body, fuel_of, fuel_of_body,
}
use enumc.Parser.Stmt.Steps.{
  make_stmt-let, make_stmt-set, make_stmt-update, make_stmt-invoke, make_stmt-give, make_stmt-leave,
  make_stmt-quit,
}
use enumc.Parser.Stmt.Starts.{stmt_name-kept, IsNext}
use enumc.Parser.Stmt.Bodies.{
  ReadsStmt, ReadsBody, ReadsBody-only, ReadsBody-more, make_block-body, ReadsBlock, eat_if-next,
  eat_if_kw-next,
}

module _ (number_of : String → ℕ) (parse_f64 : Bool → String → Option ℕ) where
  -- The end of a statement that ends in a block
  make_stmt-next :
      (fuel : ℕ) (toks : List Tok) (s : Stmt) (b : Bool) (t : Tok) (rest : List Tok)
      → stmt_body number_of parse_f64 fuel (make_stmt number_of parse_f64 fuel) false toks
        ≡ done (s, false) (gap b (t ∷ rest))
      → IsNext t
      → make_stmt number_of parse_f64 (suc fuel) false toks ≡ done (s, false) (t ∷ rest)
  unfolding make_stmt
  make_stmt-next fuel toks s b t rest h next =
      rw h (rw (eat_whitespace-gap b t rest next.no_blank) (rw (eat_if-next t rest next) refl))

  -- The condition of a loop or a branch, up to its block
  condition :
      (fuel : ℕ) (c : Chain) (rest : List Tok)
      → fuel_of_chain c ≤ fuel
      → is_chain c ≡ true
      → (A : Type 0) (f : Expr → Flagged A)
      → (blanks >=> (λ u. expr number_of parse_f64 (suc fuel) >=> (λ e. blanks >=> (λ u. f e))))
          false
          (space ∷ print_term (group c) (space ∷ opened rest))
        ≡ f (meant number_of (group c)) false (opened rest)
  unfolding eat_whitespace
  condition fuel c rest le h A f =
      rw (eat_whitespace-term (group c) (space ∷ opened rest))
        (rw (make_expr-print_group number_of parse_f64 false fuel c (space ∷ rest) le h) refl)

  ReadsStmt-repeat :
      (fuel : ℕ) (c : Chain) (body : Body)
      → fuel_of_chain c ≤ fuel
      → is_chain c ≡ true
      → ReadsBlock number_of parse_f64 (suc fuel) body
      → ReadsStmt number_of parse_f64 (suc (suc fuel)) (repeat c body)
  unfolding ReadsStmt ReadsBlock print meant_stmt
  ReadsStmt-repeat fuel c body le h reads t rest next =
      let rec = make_stmt number_of parse_f64 (suc fuel) in
      (
        false,
        make_stmt-next (suc fuel) _ _ false t rest
            (unfold stmt_body eat_if_kw make_while_stmt in
              condition fuel c (print_body body (space ∷ t ∷ rest)) le h Stmt (λ cond.
                make_block (suc fuel) rec >=> (λ blk. blanks >=> (λ u. return (while cond blk))))
              ∙ rw (reads space (t ∷ rest))
                  (rw (eat_whitespace-gap true t rest next.no_blank) refl))
            next,
      )

  abbrev else_part : ℕ → Expr → Stmts → Flagged Stmt
  else_part fuel cond blk =
      when_kw "else"
        (blanks >=> (λ u.
          make_block fuel (make_stmt number_of parse_f64 fuel)
          >=> (λ e. return (if_else cond blk (els e)))))
        (return (if_else cond blk no_else))

  ReadsStmt-branch :
      (fuel : ℕ) (c : Chain) (body : Body)
      → fuel_of_chain c ≤ fuel
      → is_chain c ≡ true
      → ReadsBlock number_of parse_f64 (suc fuel) body
      → ReadsStmt number_of parse_f64 (suc (suc fuel)) (branch c body)
  unfolding ReadsStmt ReadsBlock print meant_stmt
  ReadsStmt-branch fuel c body le h reads t rest next =
      let rec = make_stmt number_of parse_f64 (suc fuel) in
      (
        false,
        make_stmt-next (suc fuel) _ _ false t rest
            (unfold stmt_body eat_if_kw make_if_stmt in
              condition fuel c (print_body body (space ∷ t ∷ rest)) le h Stmt (λ cond.
                make_block (suc fuel) rec
                >=> (λ blk. blanks >=> (λ u. else_part (suc fuel) cond blk)))
              ∙ rw (reads space (t ∷ rest)) (
                  rw (eat_whitespace-gap true t rest next.no_blank)
                    (rw (eat_if_kw-next t rest next) refl)))
            next,
      )

  ReadsStmt-choose :
      (fuel : ℕ) (c : Chain) (body other : Body)
      → fuel_of_chain c ≤ fuel
      → is_chain c ≡ true
      → ReadsBlock number_of parse_f64 (suc fuel) body
      → ReadsBlock number_of parse_f64 (suc fuel) other
      → ReadsStmt number_of parse_f64 (suc (suc fuel)) (choose c body other)
  unfolding ReadsStmt ReadsBlock print meant_stmt eat_whitespace
  ReadsStmt-choose fuel c body other le h reads reads_other t rest next =
      let rec = make_stmt number_of parse_f64 (suc fuel) in
      let toks = print_block other (space ∷ t ∷ rest) in
      (
        false,
        make_stmt-next (suc fuel) _ _ true t rest
            (unfold stmt_body eat_if_kw make_if_stmt in
              condition fuel c (print_body body (space ∷ head "else" toks)) le h Stmt (λ cond.
                make_block (suc fuel) rec
                >=> (λ blk. blanks >=> (λ u. else_part (suc fuel) cond blk)))
              ∙ rw (reads space (head "else" toks)) (rw (reads_other space (t ∷ rest)) refl))
            next,
      )

  fuel_of-pos : (s : Written) → 1 ≤ fuel_of s
  unfolding fuel_of
  fuel_of-pos (let_in name c) = omega arith
  fuel_of-pos (set name c) = omega arith
  fuel_of-pos (update name op c) = omega arith
  fuel_of-pos (invoke name args) = omega arith
  fuel_of-pos (give c) = omega arith
  fuel_of-pos leave = omega arith
  fuel_of-pos quit = omega arith
  fuel_of-pos (repeat c body) = omega arith
  fuel_of-pos (branch c body) = omega arith
  fuel_of-pos (choose c body other) = omega arith

  -- Fuel for the loop of a body is fuel for its block.
  ReadsBlock-body :
      (fuel : ℕ) (body : Body)
      → is_body body ≡ true
      → ReadsBody number_of parse_f64 fuel fuel body
      → ReadsBlock number_of parse_f64 fuel body
  unfolding ReadsBlock
  ReadsBlock-body fuel body w reads t rest =
      make_block-body number_of parse_f64 fuel fuel body t rest w reads

  ReadsStmt-simple :
      (fuel : ℕ) (s : Written)
      → ((t : Tok) (rest : List Tok)
          → make_stmt number_of parse_f64 fuel false (print s (space ∷ t ∷ rest))
            ≡ done (meant_stmt number_of s, false) (space ∷ t ∷ rest))
      → ReadsStmt number_of parse_f64 fuel s
  unfolding ReadsStmt
  ReadsStmt-simple fuel s h t rest next = (true, h t rest)

  mutual
    unfolding fuel_of is_written print meant_stmt

    ReadsStmt-written :
        (fuel : ℕ) (s : Written)
        → fuel_of s ≤ fuel
        → is_written s ≡ true
        → ReadsStmt number_of parse_f64 fuel s
    ReadsStmt-written zero s le w = let p = fuel_of-pos s in absurd (omega arith)
    ReadsStmt-written (suc fuel) leave le w =
        ReadsStmt-simple (suc fuel) leave
          (λ t rest. make_stmt-leave number_of parse_f64 fuel (t ∷ rest))
    ReadsStmt-written (suc fuel) quit le w =
        ReadsStmt-simple (suc fuel) quit
          (λ t rest. make_stmt-quit number_of parse_f64 fuel (t ∷ rest))
    ReadsStmt-written (suc fuel) (give c) le w =
        ReadsStmt-simple (suc fuel) (give c)
          (λ t rest. make_stmt-give number_of parse_f64 fuel c (t ∷ rest) (omega arith) w)
    ReadsStmt-written (suc zero) s le w = absurd (omega arith)
    ReadsStmt-written (suc (suc zero)) s le w = absurd (omega arith)
    ReadsStmt-written (suc (suc (suc fuel))) (let_in name c) le w =
        ReadsStmt-simple (suc (suc (suc fuel))) (let_in name c) (λ t rest.
          make_stmt-let number_of parse_f64 fuel name c (t ∷ rest) (omega arith)
            (stmt_name-kept name (and-left (is_stmt_name name) (is_chain c) w))
            (and-right (is_stmt_name name) (is_chain c) w))
    ReadsStmt-written (suc (suc (suc fuel))) (set name c) le w =
        ReadsStmt-simple (suc (suc (suc fuel))) (set name c) (λ t rest.
          make_stmt-set number_of parse_f64 fuel name c (t ∷ rest) (omega arith)
            (and-left (is_stmt_name name) (is_chain c) w)
            (and-right (is_stmt_name name) (is_chain c) w))
    ReadsStmt-written (suc (suc (suc fuel))) (update name op c) le w =
        ReadsStmt-simple (suc (suc (suc fuel))) (update name op c) (λ t rest.
          make_stmt-update number_of parse_f64 fuel name op c (t ∷ rest) (omega arith)
            (and-left (is_stmt_name name) (is_chain c) w)
            (and-right (is_stmt_name name) (is_chain c) w))
    ReadsStmt-written (suc (suc (suc fuel))) (invoke name args) le w =
        ReadsStmt-simple (suc (suc (suc fuel))) (invoke name args) (λ t rest.
          make_stmt-invoke number_of parse_f64 fuel name args (t ∷ rest) (omega arith)
            (and-left (is_stmt_name name) (are_args args) w)
            (and-right (is_stmt_name name) (are_args args) w))
    ReadsStmt-written (suc (suc (suc fuel))) (repeat c body) le w =
        ReadsStmt-repeat (suc fuel) c body (omega arith) (and-left (is_chain c) (is_body body) w) (
          ReadsBlock-body (suc (suc fuel)) body (and-right (is_chain c) (is_body body) w) (
            ReadsBody-body (suc (suc fuel)) (suc (suc fuel)) body (omega arith) (omega arith)
              (and-right (is_chain c) (is_body body) w)))
    ReadsStmt-written (suc (suc (suc fuel))) (branch c body) le w =
        ReadsStmt-branch (suc fuel) c body (omega arith) (and-left (is_chain c) (is_body body) w) (
          ReadsBlock-body (suc (suc fuel)) body (and-right (is_chain c) (is_body body) w) (
            ReadsBody-body (suc (suc fuel)) (suc (suc fuel)) body (omega arith) (omega arith)
              (and-right (is_chain c) (is_body body) w)))
    ReadsStmt-written (suc (suc (suc fuel))) (choose c body other) le w =
        let bodies = and-right (is_chain c) (is_body body && is_body other) w in
        let left = and-left (is_body body) (is_body other) bodies in
        let right = and-right (is_body body) (is_body other) bodies in
        ReadsStmt-choose (suc fuel) c body other (omega arith)
          (and-left (is_chain c) (is_body body && is_body other) w)
          (ReadsBlock-body (suc (suc fuel)) body left (
            ReadsBody-body (suc (suc fuel)) (suc (suc fuel)) body (omega arith) (omega arith) left))
          (ReadsBlock-body (suc (suc fuel)) other right (
            ReadsBody-body (suc (suc fuel)) (suc (suc fuel)) other (omega arith) (omega arith)
              right))

    ReadsBody-body :
        (rounds fuel : ℕ) (body : Body)
        → fuel_of_body body ≤ rounds
        → fuel_of_body body ≤ fuel
        → is_body body ≡ true
        → ReadsBody number_of parse_f64 rounds fuel body
    ReadsBody-body zero fuel (only s) le lf w = absurd (omega arith)
    ReadsBody-body (suc rounds) fuel (only s) le lf w =
        ReadsBody-only number_of parse_f64 rounds fuel s w
          (ReadsStmt-written fuel s (omega arith) w)
    ReadsBody-body zero fuel (more s body) le lf w = absurd (omega arith)
    ReadsBody-body (suc rounds) fuel (more s body) le lf w =
        let first = and-left (is_written s) (is_body body) w in
        let others = and-right (is_written s) (is_body body) w in
        ReadsBody-more number_of parse_f64 rounds fuel s body first others
          (ReadsStmt-written fuel s (omega arith) first)
          (ReadsBody-body rounds fuel body (omega arith) (omega arith) others)

  -- With enough fuel, `make_block` reads the statements that are meant by a written block: declarations, assignments,
  -- calls, returns, loops and branches, nested to any depth, whose expressions are chains of operands and operators.
  -- It leaves the tokens behind the block, and the flag `in_match_stmt` off.
  pub make_block-print :
      (fuel : ℕ) (body : Body) (t : Tok) (rest : List Tok)
      → fuel_of_body body ≤ fuel
      → is_body body ≡ true
      → make_block fuel (make_stmt number_of parse_f64 fuel) false (print_block body (t ∷ rest))
        ≡ done (to_stmts (meant_stmts number_of body), false) (t ∷ rest)
  make_block-print fuel body t rest le w =
      make_block-body number_of parse_f64 fuel fuel body t rest w
        (ReadsBody-body fuel fuel body le le w)
