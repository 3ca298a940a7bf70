-- ===== src/Parser/Expr/Unary.antt =====
-- src/ast/parse.rs: how far a unary operator reaches in `make_expr`, and a call without arguments.
use Prim.Native.String.{String}
use enumc.Prelude.{ℕ, suc, ◌≤◌, ◌≡◌, refl, ap, ◌∙◌, Bool, true, false, List, [], ◌∷◌, Option, none}
use enumc.Lexer.Token.{bang, tilde, and}
use enumc.Lexer.Match.{TokenMatch, matches}
use enumc.Parser.Yard.{reduce}
use enumc.Parser.Stream.{
  Tok, Parse, done, then_at, ◌>>=◌, ◌>>◌, pure, eat_if, eat_when, eat_whitespace,
}
use enumc.Parser.Types.{is_keyword}
use enumc.Parser.Types.Print.{tok}
use enumc.Parser.MakeOp.{make_op}
use enumc.Parser.Expr.{Expr, UnOp}
use enumc.Parser.Expr.Tree.{
  tree_expr, yard_loop, yard_step, with_op, prefixed, operand_at, advance_to_op, expr_at,
  make_operators, make_expr,
}
use enumc.Parser.Expr.Chain.{
  name, number, group, apply, Chain, last, link, print_term, print_chain, meant_chain, is_chain,
  is_end, fuel_of_chain,
}
use enumc.Parser.Expr.Steps.{is_stop-Plain, eat_whitespace-gap}
use enumc.Parser.Expr.Loop.{is_end-stop, make_op-end}
use enumc.Parser.Expr.RoundTrip.{make_expr-print_chain}

-- The operators in front of an operand
pub data Prefix : Type 0 where
  not ones_comp addr_of : Prefix

abbrev pub prefix_tok : Prefix → Tok
prefix_tok not = tok bang "!"
prefix_tok ones_comp = tok tilde "~"
prefix_tok addr_of = tok and "&"

abbrev pub apply_prefix : Prefix → Expr → Expr
apply_prefix not = Expr.urnary UnOp.not
apply_prefix ones_comp = Expr.urnary UnOp.ones_comp
apply_prefix addr_of = Expr.addr_of

abbrev prefix_match : Prefix → TokenMatch
prefix_match not = TokenMatch.bang
prefix_match ones_comp = TokenMatch.tilde
prefix_match addr_of = TokenMatch.and

eat_when-chain :
    (t : Tok) (chain : Chain) (rest : List Tok)
    → eat_when true (t ∷ print_chain chain rest) ≡ done true (print_chain chain rest)
unfolding print_chain print_term
eat_when-chain t (last (name text)) rest = refl
eat_when-chain t (last (number text)) rest = refl
eat_when-chain t (last (group chain)) rest = refl
eat_when-chain t (last (apply text args)) rest = refl
eat_when-chain t (link (name text) op chain) rest = refl
eat_when-chain t (link (number text) op chain) rest = refl
eat_when-chain t (link (group c) op chain) rest = refl
eat_when-chain t (link (apply text args) op chain) rest = refl

module _ (number_of : String → ℕ) (parse_f64 : Bool → String → Option ℕ) (in_match : Bool) where
  advance-prefix :
      (fuel : ℕ) (rec : Parse Expr) (p : Prefix) (toks : List Tok)
      → advance_to_op number_of parse_f64 in_match fuel rec (prefix_tok p ∷ toks)
        ≡ with_op (prefixed (prefix_match p) rec (apply_prefix p)) (prefix_tok p ∷ toks)
  unfolding advance_to_op operand_at
  advance-prefix fuel rec not toks = refl
  advance-prefix fuel rec ones_comp toks = refl
  advance-prefix fuel rec addr_of toks = refl

  prefixed-chain :
      (fuel : ℕ) (rec : Parse Expr) (p : Prefix) (chain : Chain) (t : Tok) (rest : List Tok)
      → rec (print_chain chain (t ∷ rest)) ≡ done (meant_chain number_of chain) (t ∷ rest)
      → prefixed (prefix_match p) rec (apply_prefix p) (prefix_tok p ∷ print_chain chain (t ∷ rest))
        ≡ done (apply_prefix p (meant_chain number_of chain)) (t ∷ rest)
  unfolding eat_if matches
  prefixed-chain fuel rec not chain t rest h =
      rw (eat_when-chain (prefix_tok not) chain (t ∷ rest)) (rw h refl)
  prefixed-chain fuel rec ones_comp chain t rest h =
      rw (eat_when-chain (prefix_tok ones_comp) chain (t ∷ rest)) (rw h refl)
  prefixed-chain fuel rec addr_of chain t rest h =
      rw (eat_when-chain (prefix_tok addr_of) chain (t ∷ rest)) (rw h refl)

  make_expr-prefix :
      (fuel : ℕ) (p : Prefix) (toks : List Tok)
      → make_expr number_of parse_f64 in_match (suc (suc fuel)) (prefix_tok p ∷ toks)
        ≡ then_at
            (advance_to_op number_of parse_f64 in_match
              (suc fuel)
              (make_expr number_of parse_f64 in_match (suc fuel))
              (prefix_tok p ∷ toks))
            (λ item.
              eat_whitespace
              >> yard_step
                  (yard_loop fuel (
                    advance_to_op number_of parse_f64 in_match
                      (suc fuel)
                      (make_expr number_of parse_f64 in_match (suc fuel))))
                  []
                  []
                  item)
  unfolding make_expr expr_at make_operators is_keyword eat_whitespace yard_loop matches
  make_expr-prefix fuel not toks = refl
  make_expr-prefix fuel ones_comp toks = refl
  make_expr-prefix fuel addr_of toks = refl

  -- `!`, `~` and `&` take the whole chain of operands and operators behind them, up to what ends it: `!a + b`
  -- is `!(a + b)`.
  pub make_expr-unary :
      (fuel : ℕ) (p : Prefix) (chain : Chain) (t : Tok) (rest : List Tok)
      → fuel_of_chain chain ≤ suc fuel
      → is_chain chain ≡ true
      → is_end t.kind ≡ true
      → make_expr number_of parse_f64 in_match
          (suc (suc fuel))
          (prefix_tok p ∷ print_chain chain (t ∷ rest))
        ≡ done (apply_prefix p (meant_chain number_of chain)) (t ∷ rest)
  unfolding reduce tree_expr
  make_expr-unary fuel p chain t rest le h e =
      let rec = make_expr number_of parse_f64 in_match (suc fuel) in
      let again = yard_loop fuel (advance_to_op number_of parse_f64 in_match (suc fuel) rec) in
      let ex = apply_prefix p (meant_chain number_of chain) in
      let blank = eat_whitespace-gap false t rest (is_stop-Plain t.kind (is_end-stop t.kind e)).0 in
      make_expr-prefix fuel p (print_chain chain (t ∷ rest))
      ∙ ap (λ q. then_at q (λ item. eat_whitespace >> yard_step again [] [] item))
          (advance-prefix (suc fuel) rec p (print_chain chain (t ∷ rest))
            ∙ ap (λ q. then_at q (λ e. eat_whitespace >> (make_op >>= (λ op. pure (e, op)))))
                (prefixed-chain fuel rec p chain t rest (
                  make_expr-print_chain number_of parse_f64 in_match (suc fuel) chain t rest le h
                    e))
            ∙ ap (λ q. then_at q (λ u. make_op >>= (λ op. pure (ex, op)))) blank
            ∙ ap (λ q. then_at q (λ op. pure (ex, op))) (make_op-end t rest e))
      ∙ ap (λ q. then_at q (λ u. yard_step again [] [] (ex, none))) blank
