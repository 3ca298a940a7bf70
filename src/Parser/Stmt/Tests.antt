-- ===== src/Parser/Stmt/Tests.antt =====
-- src/ast/parse.rs: statements of concrete tokens.
use Prim.Native.String.{String}
use enumc.Prelude.{ℕ, ◌≡◌, refl, Bool, true, false, List, [], ◌∷◌, Option, none, arith}
use enumc.Lexer.Chars.{is_whitespace}
use enumc.Lexer.Token.{ident, semi, open_brace, close_brace, minus, gt}
use enumc.Lir.Isize.{pos}
use enumc.Parser.Ops.{BinOp, AssocOp, precedence, is_assign_like, to_ast_binop}
use enumc.Parser.Yard.Stack.{collapse}
use enumc.Parser.Stream.{Tok, done}
use enumc.Parser.Types.{is_keyword, parse_usize, parse_digits}
use enumc.Parser.Types.Print.{tok, space}
use enumc.Parser.Literal.{int, parse_isize}
use enumc.Parser.Expr.{Expr}
use enumc.Parser.Expr.Tree.{tree_expr}
use enumc.Parser.Expr.Chain.{name, number, last, link, meant, is_chain, fuel_of_chain}
use enumc.Parser.Stmt.{Stmt, no_stmts, stmt}
use enumc.Parser.Stmt.Block.{make_block, make_stmt}
use enumc.Parser.Stmt.Flag.{make_stmt-Off}
use enumc.Parser.Stmt.Keeps.{Off}
use enumc.Parser.Stmt.Print.{
  Body, let_in, update, give, repeat, only, more, print_block, add, meant_stmt, is_body,
  fuel_of_body,
}
use enumc.Parser.Stmt.RoundTrip.{make_block-print}

-- Every name has the same number, and no text is a float.
abbrev number_of : String → ℕ
number_of text = 7

abbrev no_f64 : Bool → String → Option ℕ
no_f64 neg text = none

-- { let x = 1; while (x < 9) { x += x; } return x; }
abbrev program : Body
program = more (let_in "x" (last (number "1"))) (
    more
      (repeat (link (name "x") AssocOp.less (last (number "9")))
        (only (update "x" add (last (name "x")))))
      (only (give (last (name "x")))))

abbrev x : Expr
x = Expr.ident 7

make_block-print_example :
    make_block 40 (make_stmt number_of no_f64 40) false (print_block program (tok semi ";" ∷ []))
    ≡ done
        (
          (stmt (Stmt.assign x (Expr.value (int (pos 1))) none true) (
              stmt
                (Stmt.while
                  (Expr.parens (Expr.binary BinOp.lt x (Expr.value (int (pos 9)))))
                  (stmt (Stmt.assign_op x x BinOp.add) no_stmts))
                (stmt (Stmt.ret x) no_stmts))),
          false,
        )
        (tok semi ";" ∷ [])
unfolding fuel_of_body is_body fuel_of_chain is_chain is_keyword is_whitespace meant meant_stmt
    tree_expr collapse to_ast_binop precedence parse_isize parse_usize parse_digits is_assign_like
make_block-print_example =
    make_block-print number_of no_f64 40 program (tok semi ";") [] (omega arith) refl

-- match x { a -> { exit; } } and a semicolon behind
abbrev match_toks : List Tok
match_toks =
    tok ident "match"
    ∷ space
    ∷ tok ident "x"
    ∷ space
    ∷ tok open_brace "{"
    ∷ space
    ∷ tok ident "a"
    ∷ space
    ∷ tok minus "-"
    ∷ tok gt ">"
    ∷ space
    ∷ tok open_brace "{"
    ∷ tok ident "exit"
    ∷ tok semi ";"
    ∷ tok close_brace "}"
    ∷ tok close_brace "}"
    ∷ tok semi ";"
    ∷ space
    ∷ []

make_stmt-Off_example : Off (make_stmt number_of no_f64 9 false match_toks)
make_stmt-Off_example = make_stmt-Off number_of no_f64 9 match_toks
