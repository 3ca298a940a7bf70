-- ===== src/Parser/Expr/Chain.antt =====
-- src/ast/parse.rs: the tokens of a written chain of operands and operators, and the expression that is
-- meant by it.
use Prim.Native.String.{String}
use enumc.Prelude.{ℕ, suc, ◌+◌, Bool, true, false, not, ◌&&◌, List, [], ◌∷◌, if◌then◌else◌}
use enumc.Lexer.Token.{
  TokenKind, LiteralKind, decimal, ident, literal, comma, open_paren, close_paren,
}
use enumc.Lir.Isize.{pos}
use enumc.Parser.Ops.{AssocOp, is_assign_like}
use enumc.Parser.Yard.{Expression}
use enumc.Parser.Yard.Stack.{run}
use enumc.Parser.Stream.{Tok}
use enumc.Parser.Types.{is_keyword}
use enumc.Parser.Types.Print.{tok, space, or_zero, is_some, kept}
use enumc.Parser.MakeOp.{op_kinds, print_kinds}
use enumc.Parser.Literal.{int, parse_isize}
use enumc.Parser.Expr.{Expr, to_exprs}
use enumc.Parser.Expr.Tree.{leaf, tree_expr}

-- An operand is a name, a decimal number, a chain in parentheses or a call with one argument at least.
mutual
  pub data Term : Type 0 where
    name number : String → Term
    group : Chain → Term
    apply : String → Args → Term

  pub data Chain : Type 0 where
    last : Term → Chain
    link : Term → AssocOp → Chain → Chain

  pub data Args : Type 0 where
    only : Chain → Args
    more : Chain → Args → Args

-- Either white space or none in front of what follows
abbrev pub gap : Bool → List Tok → List Tok
gap spaced rest = if spaced then space ∷ rest else rest

-- The tokens, in front of those of `rest`: white space stands around each operator and behind each comma.
unfoldable mutual
  pub print_term : Term → List Tok → List Tok
  print_term (name text) rest = tok ident text ∷ rest
  print_term (number text) rest = tok (literal (LiteralKind.int decimal false) 0) text ∷ rest
  print_term (group chain) rest =
      tok open_paren "(" ∷ print_chain chain (tok close_paren ")" ∷ rest)
  print_term (apply text args) rest =
      tok ident text ∷ tok open_paren "(" ∷ print_args args (tok close_paren ")" ∷ rest)

  pub print_chain : Chain → List Tok → List Tok
  print_chain (last term) rest = print_term term rest
  print_chain (link term op chain) rest =
      print_term term (space ∷ print_kinds (op_kinds op) (space ∷ print_chain chain rest))

  pub print_args : Args → List Tok → List Tok
  print_args (only chain) rest = print_chain chain rest
  print_args (more chain args) rest =
      print_chain chain (tok comma "," ∷ space ∷ print_args args rest)

-- The expression that is meant: that of a chain is what the shunting yard makes of it.
module _ (number_of : String → ℕ) where
  unfoldable mutual
    pub meant : Term → Expr
    meant (name text) = Expr.ident (number_of text)
    meant (number text) = Expr.value (int (pos (or_zero (parse_isize text))))
    meant (group chain) = Expr.parens (tree_expr (run (links chain) [] (leaf (final chain))))
    meant (apply text args) = Expr.call (number_of text ∷ []) (to_exprs (meant_args args)) []

    pub links : Chain → List (Expression Expr × AssocOp)
    links (last term) = []
    links (link term op chain) = (leaf (meant term), op) ∷ links chain

    pub final : Chain → Expr
    final (last term) = meant term
    final (link term op chain) = final chain

    pub meant_args : Args → List Expr
    meant_args (only chain) = tree_expr (run (links chain) [] (leaf (final chain))) ∷ []
    meant_args (more chain args) =
        tree_expr (run (links chain) [] (leaf (final chain))) ∷ meant_args args

  abbrev pub meant_chain : Chain → Expr
  meant_chain chain = tree_expr (run (links chain) [] (leaf (final chain)))

abbrev pub is_name : String → Bool
is_name text = kept text && not (is_keyword text)

-- Names are no keywords and no white space, numbers fit an `isize`, and no operator is an assignment.
unfoldable mutual
  pub is_term : Term → Bool
  is_term (name text) = is_name text
  is_term (number text) = is_some (parse_isize text) && not (is_keyword text)
  is_term (group chain) = is_chain chain
  is_term (apply text args) = is_name text && are_args args

  pub is_chain : Chain → Bool
  is_chain (last term) = is_term term
  is_chain (link term op chain) = is_term term && (not (is_assign_like op) && is_chain chain)

  pub are_args : Args → Bool
  are_args (only chain) = is_chain chain
  are_args (more chain args) = is_chain chain && are_args args

-- How deep the parser goes, and how often its loops run
unfoldable mutual
  pub fuel_of_term : Term → ℕ
  fuel_of_term (name text) = 2
  fuel_of_term (number text) = 1
  fuel_of_term (group chain) = fuel_of_chain chain
  fuel_of_term (apply text args) = 2 + fuel_of_args args

  pub fuel_of_chain : Chain → ℕ
  fuel_of_chain (last term) = 2 + fuel_of_term term
  fuel_of_chain (link term op chain) = suc (fuel_of_term term + fuel_of_chain chain)

  pub fuel_of_args : Args → ℕ
  fuel_of_args (only chain) = suc (fuel_of_chain chain)
  fuel_of_args (more chain args) = suc (fuel_of_chain chain + fuel_of_args args)

-- The tokens that do not go on with an operand
abbrev pub is_stop : TokenKind → Bool
is_stop TokenKind.whitespace = false
is_stop (TokenKind.line_comment doc_style) = false
is_stop (TokenKind.block_comment doc_style terminated) = false
is_stop TokenKind.ident = false
is_stop TokenKind.colon = false
is_stop TokenKind.dot = false
is_stop TokenKind.open_paren = false
is_stop TokenKind.open_bracket = false
is_stop TokenKind.open_brace = false
is_stop kind = true

-- The tokens that may stand behind a chain
abbrev pub is_end : TokenKind → Bool
is_end TokenKind.comma = true
is_end TokenKind.semi = true
is_end TokenKind.close_paren = true
is_end TokenKind.close_bracket = true
is_end TokenKind.close_brace = true
is_end kind = false

abbrev pub ends_chain : List Tok → Bool
ends_chain [] = false
ends_chain (t ∷ toks) = is_end t.kind
