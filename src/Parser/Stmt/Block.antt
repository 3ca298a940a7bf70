-- ===== src/Parser/Stmt/Block.antt =====
-- src/ast/parse.rs: `make_stmt`, the methods for each statement, `make_block` and `make_arms`. The nesting and the
-- loops are recursion on fuel; `rec` is `make_stmt`.
use Prim.Native.String.{String}
use enumc.Prelude.{ℕ, zero, suc, Bool, true, false, List, [], ◌∷◌, ◌++◌, Option, none, some}
use enumc.Types.Ty.{Ty}
use enumc.Lexer.Token.{TokenKind}
use enumc.Lexer.Match.{TokenMatch, matches}
use enumc.Parser.Ops.{BinOp}
use enumc.Parser.Stream.{
  expected, Parse, done, panic, out_of_fuel, pure, fail, then_at, ◌>>=◌, ◌>>◌, curr_kind, eat_if,
  eat_whitespace, cmp_seq, cmp_seq_ignore_ws, eat_seq,
}
use enumc.Parser.Eat.{eat_seq_ignore_ws}
use enumc.Parser.Types.{make_ty}
use enumc.Parser.Expr.{Expr}
use enumc.Parser.Expr.Left.{make_lh_expr}
use enumc.Parser.Expr.Tree.{make_expr, make_builtin}
use enumc.Parser.Stmt.{
  Pat, Stmt, assign, assign_op, call, if_else, while, match_on, inline_asm, ret, exit, builtin,
  block, Stmts, no_else, els, to_stmts, to_arms,
}
use enumc.Parser.Stmt.State.{
  Flagged, lift, return, reject, crash, with_flag, set_flag, ◌>=>◌, when_eaten, when_kw,
}
use enumc.Parser.Stmt.Asm.{make_asm_stmt}
use enumc.Parser.Stmt.Pattern.{make_pat}

abbrev pub empty_block : List TokenMatch
empty_block = TokenMatch.open_brace ∷ TokenMatch.close_brace ∷ []

abbrev pub blanks : Flagged (Unit {0})
blanks = lift eat_whitespace

-- The statements up to `}`, which they eat
unfoldable pub stmts_loop : ℕ → Flagged Stmt → List Stmt → Flagged (List Stmt)
stmts_loop zero rec stmts flag toks = out_of_fuel
stmts_loop (suc fuel) rec stmts flag toks =
    (blanks >=> (λ u. when_eaten TokenMatch.close_brace (return stmts) (
        rec >=> (λ s. blanks >=> (λ u.
          when_eaten TokenMatch.close_brace (return (stmts ++ s ∷ []))
            (stmts_loop fuel rec (stmts ++ s ∷ [])))))))
      flag toks

-- A block without its `{` has no statements.
unfoldable pub make_block : ℕ → Flagged Stmt → Flagged Stmts
make_block fuel rec flag toks = elim (cmp_seq_ignore_ws empty_block toks) [
  | true ↦ (lift (eat_seq_ignore_ws empty_block) >=> (λ u. return (to_stmts (exit ∷ [])))) flag toks
  | false ↦
      (blanks >=> (λ u.
          when_eaten TokenMatch.open_brace
            (stmts_loop fuel rec [] >=> (λ stmts. return (to_stmts stmts))) (return (to_stmts []))))
        flag toks
]

-- An assignment of an operation, by its first token
abbrev pub assign_ops : List (TokenMatch × BinOp)
assign_ops =
    (TokenMatch.plus, BinOp.add)
    ∷ (TokenMatch.minus, BinOp.sub)
    ∷ (TokenMatch.star, BinOp.mul)
    ∷ (TokenMatch.slash, BinOp.div)
    ∷ (TokenMatch.or, BinOp.bit_or)
    ∷ (TokenMatch.and, BinOp.bit_and)
    ∷ []

-- `make_assign_stmt_expr`; `expr` is `make_expr`.
unfoldable pub make_assign_stmt_expr : Parse Expr → Expr → List (TokenMatch × BinOp) → Parse Stmt
make_assign_stmt_expr expr lval [] toks = elim (matches TokenMatch.eq (curr_kind toks)) [
  | true ↦
      (eat_if TokenMatch.eq
          >> (eat_whitespace >> (expr >>= (λ rval. pure (assign lval rval none false)))))
        toks
  | false ↦ panic
]
make_assign_stmt_expr expr lval ((pat, op) ∷ ops) toks =
    elim (cmp_seq (pat ∷ TokenMatch.eq ∷ []) toks) [
      | true ↦
          (eat_seq (pat ∷ TokenMatch.eq ∷ [])
              >> (eat_whitespace >> (expr >>= (λ rval. pure (assign_op lval rval op)))))
            toks
      | false ↦ make_assign_stmt_expr expr lval ops toks
    ]

-- The statement that starts with a left hand expression
unfoldable pub stmt_of : Parse Expr → Expr → Parse Stmt
stmt_of expr (Expr.ident name) = make_assign_stmt_expr expr (Expr.ident name) assign_ops
stmt_of expr (Expr.call path args type_args) = pure (call (Expr.call path args type_args))
stmt_of expr (Expr.deref indir e) = make_assign_stmt_expr expr (Expr.deref indir e) assign_ops
stmt_of expr (Expr.array name es) = make_assign_stmt_expr expr (Expr.array name es) assign_ops
stmt_of expr (Expr.field_access lhs rhs) =
    make_assign_stmt_expr expr (Expr.field_access lhs rhs) assign_ops
stmt_of expr (Expr.parens e) = λ toks. panic
stmt_of expr e = fail expected

module _ (number : String → ℕ) (parse_f64 : Bool → String → Option ℕ) where
  abbrev pub expr : ℕ → Flagged Expr
  expr fuel = with_flag (λ flag. make_expr number parse_f64 flag fuel)

  abbrev pub lh_expr : ℕ → Flagged Expr
  lh_expr fuel =
      with_flag (λ flag. make_lh_expr number flag fuel (make_expr number parse_f64 flag fuel))

  -- The type of a `let`, if there is a colon
  unfoldable pub make_let_ty : ℕ → Parse (Option Ty)
  make_let_ty fuel = eat_if TokenMatch.colon >>= (λ typed. elim typed [
    | true ↦ eat_whitespace >> (make_ty number fuel >>= (λ ty. eat_whitespace >> pure (some ty)))
    | false ↦ pure none
  ])

  unfoldable pub make_assignment : ℕ → Flagged Stmt
  make_assignment fuel = blanks >=> (λ u. lh_expr fuel >=> (λ lval. blanks >=> (λ u.
      lift (make_let_ty fuel) >=> (λ ty.
        lift (eat_if TokenMatch.eq)
        >=> (λ u. blanks >=> (λ u. expr fuel >=> (λ rval. return (assign lval rval ty true))))))))

  unfoldable pub make_if_stmt : ℕ → Flagged Stmt → Flagged Stmt
  make_if_stmt fuel rec = blanks >=> (λ u. expr fuel >=> (λ cond. blanks >=> (λ u.
      make_block fuel rec >=> (λ blk. blanks >=> (λ u.
        when_kw "else"
          (blanks >=> (λ u. make_block fuel rec >=> (λ e. return (if_else cond blk (els e)))))
          (return (if_else cond blk no_else)))))))

  unfoldable pub make_while_stmt : ℕ → Flagged Stmt → Flagged Stmt
  make_while_stmt fuel rec = blanks >=> (λ u. expr fuel >=> (λ cond.
      blanks >=> (λ u. make_block fuel rec >=> (λ blk. blanks >=> (λ u. return (while cond blk))))))

  -- A pattern, `->`, a block and a comma
  unfoldable pub make_arm : ℕ → Flagged Stmt → Flagged (Pat × Stmts)
  make_arm fuel rec = lift (make_pat number parse_f64 fuel) >=> (λ p. blanks >=> (λ u.
      lift (eat_if TokenMatch.minus) >=> (λ u. lift (eat_if TokenMatch.gt) >=> (λ u.
        blanks >=> (λ u.
          make_block fuel rec
          >=> (λ blk. lift (eat_if TokenMatch.comma) >=> (λ u. return (p, blk))))))))

  unfoldable pub arms_loop :
      ℕ → ℕ → Flagged Stmt → List (Pat × Stmts) → Flagged (List (Pat × Stmts))
  arms_loop zero depth rec arms flag toks = out_of_fuel
  arms_loop (suc fuel) depth rec arms flag toks = then_at (eat_whitespace toks) (λ u rest.
      elim (matches TokenMatch.close_brace (curr_kind rest)) [
        | true ↦ done (arms, flag) rest
        | false ↦
            (make_arm depth rec >=> (λ a. arms_loop fuel depth rec (arms ++ a ∷ []))) flag rest
      ])

  unfoldable pub make_arms : ℕ → Flagged Stmt → Flagged (List (Pat × Stmts))
  make_arms fuel rec = blanks >=> (λ u. arms_loop fuel fuel rec [])

  unfoldable pub make_match_stmt : ℕ → Flagged Stmt → Flagged Stmt
  make_match_stmt fuel rec = blanks >=> (λ u. expr fuel >=> (λ e. blanks >=> (λ u.
      lift (eat_if TokenMatch.open_brace) >=> (λ u. make_arms fuel rec >=> (λ arms. blanks >=> (λ u.
        lift (eat_if TokenMatch.close_brace) >=> (λ u. return (match_on e (to_arms arms)))))))))

  unfoldable pub ret_or_exit : ℕ → Flagged Stmt
  ret_or_exit fuel flag toks = elim (matches TokenMatch.semi (curr_kind toks)) [
    | true ↦ done (exit, flag) toks
    | false ↦ (expr fuel >=> (λ e. return (ret e))) flag toks
  ]

  unfoldable pub make_return_stmt : ℕ → Flagged Stmt
  make_return_stmt fuel = blanks >=> (λ u. ret_or_exit fuel)

  unfoldable pub make_lh_stmt : ℕ → Flagged Stmt
  make_lh_stmt fuel = lh_expr fuel >=> (λ e.
      blanks >=> (λ u. with_flag (λ flag. stmt_of (make_expr number parse_f64 flag fuel) e)))

  unfoldable pub expr_stmt_at : TokenKind → ℕ → Flagged Stmt → Flagged Stmt
  expr_stmt_at TokenKind.ident fuel rec = make_lh_stmt fuel
  expr_stmt_at TokenKind.star fuel rec = make_lh_stmt fuel
  expr_stmt_at TokenKind.lt fuel rec = crash
  expr_stmt_at TokenKind.open_brace fuel rec = make_block fuel rec >=> (λ blk. return (block blk))
  expr_stmt_at kind fuel rec = reject expected

  unfoldable pub make_expr_stmt : ℕ → Flagged Stmt → Flagged Stmt
  make_expr_stmt fuel rec flag toks = expr_stmt_at (curr_kind toks) fuel rec flag toks

  -- The branch of a match, which sets the flag and resets it
  unfoldable pub make_flagged_match : ℕ → Flagged Stmt → Flagged Stmt
  make_flagged_match fuel rec =
      set_flag true
      >=> (λ u. make_match_stmt fuel rec >=> (λ s. set_flag false >=> (λ u. return s)))

  -- The branches of `make_stmt`
  unfoldable pub stmt_body : ℕ → Flagged Stmt → Flagged Stmt
  stmt_body fuel rec = when_kw "let" (make_assignment fuel) (
      when_kw "if" (make_if_stmt fuel rec) (
        when_kw "while" (make_while_stmt fuel rec) (
          when_kw "return" (make_return_stmt fuel) (
            when_kw "match" (make_flagged_match fuel rec) (
              when_kw "asm"
                (lift (make_asm_stmt number parse_f64 fuel)
                  >=> (λ assembly. return (inline_asm assembly)))
                (when_kw "exit" (blanks >=> (λ u. return exit)) (
                  when_eaten TokenMatch.at
                    (lift (make_builtin number parse_f64 false fuel) >=> (λ b. return (builtin b)))
                    (make_expr_stmt fuel rec))))))))

  unfoldable pub make_stmt : ℕ → Flagged Stmt
  make_stmt zero flag toks = out_of_fuel
  make_stmt (suc fuel) flag toks =
      (stmt_body fuel (make_stmt fuel)
          >=> (λ s. blanks >=> (λ u. lift (eat_if TokenMatch.semi) >=> (λ u. return s))))
        flag toks
