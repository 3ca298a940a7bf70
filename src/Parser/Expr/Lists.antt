-- ===== src/Parser/Expr/Lists.antt =====
-- src/ast/parse.rs: `make_arg_list`, `make_expr_list` and `make_field_list`, the lists of expressions, where
-- `rec` is `make_expr`. Their loops are recursion on fuel.
use Prim.Native.String.{String}
use enumc.Prelude.{ℕ, zero, suc, true, false, List, [], ◌∷◌, ◌++◌}
use enumc.Lexer.Match.{TokenMatch}
use enumc.Parser.Stream.{
  expected, Parse, out_of_fuel, pure, fail, then_at, ◌>>=◌, ◌>>◌, eat_if, eat_whitespace,
  make_ident,
}
use enumc.Parser.Expr.{Expr}

unfoldable pub make_arg_list : ℕ → Parse Expr → List Expr → Parse (List Expr)
make_arg_list zero rec args toks = out_of_fuel
make_arg_list (suc fuel) rec args toks = then_at (eat_whitespace toks) (λ u.
    eat_if TokenMatch.close_paren >>= (λ closed. elim closed [
      | true ↦ pure args
      | false ↦ rec >>= (λ e.
          eat_whitespace
          >> (eat_if TokenMatch.comma >>= (λ more. elim more [
            | true ↦ eat_whitespace >> make_arg_list fuel rec (args ++ e ∷ [])
            | false ↦ pure (args ++ e ∷ [])
          ])))
    ]))

-- The loop of `make_expr_list`
unfoldable pub exprs_loop : ℕ → Parse Expr → TokenMatch → List Expr → Parse (List Expr)
exprs_loop zero rec close exprs toks = out_of_fuel
exprs_loop (suc fuel) rec close exprs toks = then_at (eat_whitespace toks) (λ u.
    eat_if close >>= (λ closed. elim closed [
      | true ↦ pure exprs
      | false ↦ rec >>= (λ e. eat_if TokenMatch.comma >>= (λ more. elim more [
        | true ↦ eat_whitespace >> exprs_loop fuel rec close (exprs ++ e ∷ [])
        | false ↦ pure (exprs ++ e ∷ [])
      ]))
    ]))

unfoldable pub make_expr_list : ℕ → Parse Expr → TokenMatch → TokenMatch → Parse (List Expr)
make_expr_list fuel rec opening close = eat_if opening >>= (λ opened. elim opened [
  | true ↦
      exprs_loop fuel rec close [] >>= (λ exprs. eat_if close >> (eat_whitespace >> pure exprs))
  | false ↦ pure []
])

module _ (number : String → ℕ) where
  -- `name: expr`
  unfoldable pub make_init : Parse Expr → Parse (ℕ × Expr)
  make_init rec = make_ident >>= (λ text.
      eat_whitespace
      >> (eat_if TokenMatch.colon
          >> (eat_whitespace >> (rec >>= (λ init. pure (number text, init))))))

  -- The loop of `make_field_list`
  unfoldable pub inits_loop : ℕ → Parse Expr → List (ℕ × Expr) → Parse (List (ℕ × Expr))
  inits_loop zero rec exprs toks = out_of_fuel
  inits_loop (suc fuel) rec exprs toks = then_at (eat_whitespace toks) (λ u.
      eat_if TokenMatch.close_brace >>= (λ closed. elim closed [
        | true ↦ pure exprs
        | false ↦ make_init rec >>= (λ e. eat_if TokenMatch.comma >>= (λ more. elim more [
          | true ↦ eat_whitespace >> inits_loop fuel rec (exprs ++ e ∷ [])
          | false ↦ pure (exprs ++ e ∷ [])
        ]))
      ]))

  unfoldable pub make_field_list : ℕ → Parse Expr → Parse (List (ℕ × Expr))
  make_field_list fuel rec = eat_if TokenMatch.open_brace >>= (λ opened. elim opened [
    | true ↦
        inits_loop fuel rec []
        >>= (λ exprs. eat_if TokenMatch.close_brace >> (eat_whitespace >> pure exprs))
    | false ↦ fail expected
  ])
