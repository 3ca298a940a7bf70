-- ===== src/Parser/Expr/Tests.antt =====
-- src/ast/parse.rs: expressions of concrete tokens.
use Prim.Native.String.{String}
use text.Mathlib.Text.{◌==◌}
use enumc.Prelude.{ℕ, ◌≡◌, refl, Bool, false, [], ◌∷◌, Option, none, if◌then◌else◌, arith}
use enumc.Lexer.Token.{semi, open_paren, close_paren}
use enumc.Lexer.Match.{matches}
use enumc.Lir.Isize.{pos}
use enumc.Parser.Ops.{BinOp, AssocOp, precedence, is_assign_like, to_ast_binop}
use enumc.Parser.Yard.Stack.{collapse}
use enumc.Parser.Types.{is_keyword, parse_usize, parse_digits}
use enumc.Parser.Stream.{done}
use enumc.Parser.Types.Print.{tok}
use enumc.Parser.Literal.{int, parse_isize}
use enumc.Parser.Expr.{Expr, Exprs, UnOp, to_exprs}
use enumc.Parser.Expr.Tree.{make_expr, tree_expr}
use enumc.Lexer.Chars.{is_whitespace}
use enumc.Parser.Expr.Chain.{
  Chain, name, number, group, apply, last, link, only, more, print_chain, meant, is_chain,
  fuel_of_chain,
}
use enumc.Parser.Expr.RoundTrip.{make_expr-print_chain}
use enumc.Parser.Expr.NoArgs.{print_call, print_op, make_expr-no_args}
use enumc.Parser.Expr.Unary.{not, prefix_tok, make_expr-unary}

abbrev number_of : String → ℕ
number_of text = if text == "f" then 1 else if text == "g" then 2 else 3

-- No text is a float.
abbrev no_f64 : Bool → String → Option ℕ
no_f64 neg text = none

-- f(x, 2) + x * (g + 10)
abbrev sum : Chain
sum = link (apply "f" (more (last (name "x")) (only (last (number "2"))))) AssocOp.add (
    link (name "x") AssocOp.multiply
      (last (group (link (name "g") AssocOp.add (last (number "10"))))))

abbrev sum_expr : Expr
sum_expr =
    Expr.binary BinOp.add
      (Expr.call (1 ∷ [])
        (Exprs.cons (Expr.ident 3) (Exprs.cons (Expr.value (int (pos 2))) Exprs.nil)) [])
      (Expr.binary BinOp.mul (Expr.ident 3)
        (Expr.parens (Expr.binary BinOp.add (Expr.ident 2) (Expr.value (int (pos 10))))))

make_expr-print_chain_example :
    make_expr number_of no_f64 false 40 (print_chain sum (tok semi ";" ∷ []))
    ≡ done sum_expr (tok semi ";" ∷ [])
unfolding fuel_of_chain is_chain is_keyword is_whitespace meant tree_expr collapse to_ast_binop
    precedence parse_isize parse_usize parse_digits is_assign_like
make_expr-print_chain_example =
    make_expr-print_chain number_of no_f64 false 40 sum (tok semi ";") [] (omega arith) refl refl

make_expr-unary_example :
    make_expr number_of no_f64 false 20 (
      prefix_tok not
      ∷ print_chain (link (name "f") AssocOp.add (last (name "x"))) (tok semi ";" ∷ []))
    ≡ done
        (Expr.urnary UnOp.not (Expr.binary BinOp.add (Expr.ident 1) (Expr.ident 3)))
        (tok semi ";" ∷ [])
unfolding fuel_of_chain is_chain is_keyword is_whitespace meant tree_expr collapse to_ast_binop
    precedence is_assign_like
make_expr-unary_example =
    make_expr-unary number_of no_f64 false 18 not (link (name "f") AssocOp.add (last (name "x")))
      (tok semi ";") [] (omega arith) refl refl

abbrev x_times_g : Chain
x_times_g = link (name "x") AssocOp.multiply (last (name "g"))

abbrev f_plus_product : Expr
f_plus_product =
    Expr.binary BinOp.add (Expr.call (1 ∷ []) (to_exprs []) [])
      (Expr.binary BinOp.mul (Expr.ident 3) (Expr.ident 2))

-- (f()) + x * g; and (f() + x * g);
make_expr-no_args_example :
    (make_expr number_of no_f64 false 20 (
        tok open_paren "("
        ∷ print_call "f" (tok close_paren ")" ∷ print_op AssocOp.add x_times_g (tok semi ";" ∷ [])))
      ≡ done (Expr.parens f_plus_product) (tok semi ";" ∷ []))
    × (make_expr number_of no_f64 false 20 (
          tok open_paren "("
          ∷ print_call "f"
              (print_op AssocOp.add x_times_g (tok close_paren ")" ∷ tok semi ";" ∷ [])))
        ≡ done (Expr.parens f_plus_product) (tok semi ";" ∷ []))
unfolding fuel_of_chain is_chain is_keyword is_whitespace meant tree_expr collapse to_ast_binop
    precedence is_assign_like matches
make_expr-no_args_example =
    make_expr-no_args number_of no_f64 false 15 "f" AssocOp.add x_times_g (tok semi ";") [] refl
      refl refl (omega arith) refl refl refl
