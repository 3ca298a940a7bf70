-- ===== src/Parser/Stmt/Print.antt =====
-- src/ast/parse.rs: the tokens of a written statement, and the statement that is meant.
use Prim.Native.String.{String}
use text.Mathlib.Text.{◌==◌}
use enumc.Prelude.{ℕ, ◌+◌, Bool, true, false, not, ◌&&◌, ◌||◌, List, [], ◌∷◌, none}
use enumc.Lexer.Token.{
  ident, semi, eq, plus, minus, star, slash, or, and, open_paren, close_paren, open_brace,
  close_brace,
}
use enumc.Parser.Ops.{BinOp}
use enumc.Parser.Stream.{Tok}
use enumc.Parser.Types.Print.{tok, space}
use enumc.Parser.Expr.{Expr, to_exprs}
use enumc.Parser.Expr.Chain.{
  Chain, Args, group, print_term, print_chain, print_args, meant, meant_chain, meant_args, is_name,
  is_chain, are_args, fuel_of_chain, fuel_of_args,
}
use enumc.Parser.Stmt.{
  Stmt, assign, assign_op, call, if_else, while, ret, exit, to_stmts, no_else, els,
}

-- The operators of an assignment
pub data Update : Type 0 where
  add sub mul div bit_or bit_and : Update

abbrev pub update_tok : Update → Tok
update_tok add = tok plus "+"
update_tok sub = tok minus "-"
update_tok mul = tok star "*"
update_tok div = tok slash "/"
update_tok bit_or = tok or "|"
update_tok bit_and = tok and "&"

abbrev pub update_op : Update → BinOp
update_op add = BinOp.add
update_op sub = BinOp.sub
update_op mul = BinOp.mul
update_op div = BinOp.div
update_op bit_or = BinOp.bit_or
update_op bit_and = BinOp.bit_and

-- `let x = c;`, `x = c;`, `x += c;`, `f(args);`, `return c;`, `return;`, `exit;`, `while (c) { .. }`,
-- `if (c) { .. }` and `if (c) { .. } else { .. }`; a body has one statement at least.
mutual
  pub data Written : Type 0 where
    let_in set : String → Chain → Written
    update : String → Update → Chain → Written
    invoke : String → Args → Written
    give : Chain → Written
    leave quit : Written
    repeat branch : Chain → Body → Written
    choose : Chain → Body → Body → Written

  pub data Body : Type 0 where
    only : Written → Body
    more : Written → Body → Body

abbrev pub semi_tok : Tok
semi_tok = tok semi ";"

abbrev pub head : String → List Tok → List Tok
head text rest = tok ident text ∷ space ∷ rest

abbrev pub opened : List Tok → List Tok
opened rest = tok open_brace "{" ∷ space ∷ rest

unfoldable mutual
  pub print : Written → List Tok → List Tok
  print (let_in name c) rest =
      head "let" (head name (tok eq "=" ∷ space ∷ print_chain c (semi_tok ∷ rest)))
  print (set name c) rest = head name (tok eq "=" ∷ space ∷ print_chain c (semi_tok ∷ rest))
  print (update name op c) rest =
      head name (update_tok op ∷ tok eq "=" ∷ space ∷ print_chain c (semi_tok ∷ rest))
  print (invoke name args) rest =
      tok ident name ∷ tok open_paren "(" ∷ print_args args (tok close_paren ")" ∷ semi_tok ∷ rest)
  print (give c) rest = head "return" (print_chain c (semi_tok ∷ rest))
  print leave rest = tok ident "return" ∷ semi_tok ∷ rest
  print quit rest = tok ident "exit" ∷ semi_tok ∷ rest
  print (repeat c body) rest =
      head "while" (print_term (group c) (space ∷ opened (print_body body rest)))
  print (branch c body) rest =
      head "if" (print_term (group c) (space ∷ opened (print_body body rest)))
  print (choose c body other) rest = head "if" (
      print_term (group c)
        (space ∷ opened (print_body body (space ∷ head "else" (opened (print_body other rest))))))

  -- White space stands behind each statement, and `}` behind the last one.
  pub print_body : Body → List Tok → List Tok
  print_body (only s) rest = print s (space ∷ tok close_brace "}" ∷ rest)
  print_body (more s body) rest = print s (space ∷ print_body body rest)

abbrev pub print_block : Body → List Tok → List Tok
print_block body rest = opened (print_body body rest)

module _ (number_of : String → ℕ) where
  unfoldable mutual
    pub meant_stmt : Written → Stmt
    meant_stmt (let_in name c) =
        assign (Expr.ident (number_of name)) (meant_chain number_of c) none true
    meant_stmt (set name c) =
        assign (Expr.ident (number_of name)) (meant_chain number_of c) none false
    meant_stmt (update name op c) =
        assign_op (Expr.ident (number_of name)) (meant_chain number_of c) (update_op op)
    meant_stmt (invoke name args) =
        call (Expr.call (number_of name ∷ []) (to_exprs (meant_args number_of args)) [])
    meant_stmt (give c) = ret (meant_chain number_of c)
    meant_stmt leave = exit
    meant_stmt quit = exit
    meant_stmt (repeat c body) = while (meant number_of (group c)) (to_stmts (meant_stmts body))
    meant_stmt (branch c body) =
        if_else (meant number_of (group c)) (to_stmts (meant_stmts body)) no_else
    meant_stmt (choose c body other) =
        if_else (meant number_of (group c)) (to_stmts (meant_stmts body))
          (els (to_stmts (meant_stmts other)))

    pub meant_stmts : Body → List Stmt
    meant_stmts (only s) = meant_stmt s ∷ []
    meant_stmts (more s body) = meant_stmt s ∷ meant_stmts body

-- The keywords that start a statement, and that which starts an else
abbrev pub stmt_keyword : String → Bool
stmt_keyword text =
    ("let" == text)
    || (("if" == text)
        || (("while" == text)
            || (("return" == text)
                || (("match" == text)
                    || (("asm" == text) || (("exit" == text) || ("else" == text)))))))

abbrev pub is_stmt_name : String → Bool
is_stmt_name text = is_name text && not (stmt_keyword text)

-- Names are no keywords, and expressions are those that `make_expr` reads.
unfoldable mutual
  pub is_written : Written → Bool
  is_written (let_in name c) = is_stmt_name name && is_chain c
  is_written (set name c) = is_stmt_name name && is_chain c
  is_written (update name op c) = is_stmt_name name && is_chain c
  is_written (invoke name args) = is_stmt_name name && are_args args
  is_written (give c) = is_chain c
  is_written leave = true
  is_written quit = true
  is_written (repeat c body) = is_chain c && is_body body
  is_written (branch c body) = is_chain c && is_body body
  is_written (choose c body other) = is_chain c && (is_body body && is_body other)

  pub is_body : Body → Bool
  is_body (only s) = is_written s
  is_body (more s body) = is_written s && is_body body

-- How deep the parser goes, and how often its loops run
unfoldable mutual
  pub fuel_of : Written → ℕ
  fuel_of (let_in name c) = 3 + fuel_of_chain c
  fuel_of (set name c) = 3 + fuel_of_chain c
  fuel_of (update name op c) = 3 + fuel_of_chain c
  fuel_of (invoke name args) = 4 + fuel_of_args args
  fuel_of (give c) = 3 + fuel_of_chain c
  fuel_of leave = 1
  fuel_of quit = 1
  fuel_of (repeat c body) = 3 + fuel_of_chain c + fuel_of_body body
  fuel_of (branch c body) = 3 + fuel_of_chain c + fuel_of_body body
  fuel_of (choose c body other) = 3 + fuel_of_chain c + fuel_of_body body + fuel_of_body other

  pub fuel_of_body : Body → ℕ
  fuel_of_body (only s) = 1 + fuel_of s
  fuel_of_body (more s body) = 1 + fuel_of s + fuel_of_body body
