-- ===== src/Parser/Expr/Tree.antt =====
-- src/ast/parse.rs: `advance_to_op` and `make_expr`, where the loop of the shunting yard reads its operands
-- and operators off the tokens. The expressions have no spans, so those of the yard are all empty.
use Prim.Native.String.{String}
use text.Mathlib.Text.{◌==◌}
use enumc.Prelude.{ℕ, zero, suc, ◌%◌, ◌^◌, Bool, true, false, List, [], ◌∷◌, Option, none, some}
use enumc.Types.Ty.{Ty}
use enumc.Lexer.Token.{TokenKind}
use enumc.Lexer.Match.{TokenMatch, matches}
use enumc.Lir.Isize.{ℤ, pos, negsuc}
use enumc.Parser.Ops.{AssocOp}
use enumc.Parser.Yard.{
  Range, Expression, operand, binary, Outcome, ok, expected_term, failed_to_generate, reduce, shift,
}
use enumc.Prelude
use enumc.Parser.Stream.{
  expected, Parse, failed, panic, out_of_fuel, pure, fail, then_at, ◌>>=◌, ◌>>◌, curr_kind,
  input_curr, eat_if, eat_whitespace, cmp_seq_ignore_ws,
}
use enumc.Parser.Eat.{count_eaten_seq}
use enumc.Parser.Types.{make_ty, make_path, is_keyword}
use enumc.Parser.Types.Args.{make_type_args}
use enumc.Parser.MakeOp.{make_op}
use enumc.Parser.Literal.{Value, make_literal}
use enumc.Parser.Literal
use enumc.Parser.Expr.{Expr, UnOp, Builtin, bottom, size_of, to_exprs, repeated}
use enumc.Parser.Expr.Lists.{make_arg_list, make_expr_list}
use enumc.Parser.Expr.Left.{make_lh_expr}

abbrev pub no_range : Range
no_range = record { start = 0; stop = 0 }

-- The operand of the yard for an expression, and the expression that a tree of the yard is
abbrev pub leaf : Expr → Expression Expr
leaf e = operand e no_range

unfoldable pub tree_expr : Expression Expr → Expr
tree_expr (operand e r) = e
tree_expr (binary op lhs rhs r) = Expr.binary op (tree_expr lhs) (tree_expr rhs)

abbrev pub yard_result : Outcome Expr → Parse Expr
yard_result (ok t) = pure (tree_expr t)
yard_result expected_term = fail expected
yard_result failed_to_generate = fail expected
yard_result Outcome.panic = λ toks. panic

abbrev pub Operand : Type 0
Operand = Expr × Option AssocOp

-- White space and the operator behind an operand
abbrev pub with_op : Parse Expr → Parse Operand
with_op left = left >>= (λ e. eat_whitespace >> (make_op >>= (λ op. pure (e, op))))

-- The first token of an operand
abbrev pub prefixed : TokenMatch → Parse Expr → (Expr → Expr) → Parse Expr
prefixed pat rec wrap = eat_if pat >> (rec >>= (λ e. pure (wrap e)))

-- `int as usize`
abbrev pub as_usize : ℤ → ℕ
as_usize (pos n) = n % 2 ^ 64
as_usize (negsuc n) = Prelude.◌-◌ (2 ^ 64) (Prelude.◌+◌ n 1)

-- The end of the loop of `make_expr` at `;`
abbrev pub last_output : List (Expression Expr) → Outcome Expr
last_output [] = failed_to_generate
last_output (e ∷ output) = ok e

-- The loop of the shunting yard: `again` is the rest of it, for the two stacks.
abbrev pub shifted :
    (List AssocOp → List (Expression Expr) → Parse Expr)
    → Option (List AssocOp × List (Expression Expr))
    → Parse Expr
shifted again none = λ toks. panic
shifted again (some (opstack, output)) = again opstack output

abbrev pub yard_step :
    (List AssocOp → List (Expression Expr) → Parse Expr)
    → List AssocOp
    → List (Expression Expr)
    → Operand
    → Parse Expr
yard_step again opstack output (e, none) = yard_result (reduce opstack (leaf e ∷ output))
yard_step again opstack output (e, some next) = shifted again (shift opstack output (leaf e) next)

unfoldable pub yard_loop : ℕ → Parse Operand → List AssocOp → List (Expression Expr) → Parse Expr
yard_loop zero advance opstack output toks = out_of_fuel
yard_loop (suc fuel) advance opstack output toks = elim (matches TokenMatch.semi (curr_kind toks)) [
  | true ↦ yard_result (last_output output) toks
  | false ↦ then_at (eat_whitespace toks) (λ u.
      advance
      >>= (λ item. eat_whitespace >> yard_step (yard_loop fuel advance) opstack output item))
]

-- `[literal; count]`
abbrev pub array_of : Value → Value → Parse Expr
array_of lit (Literal.int count) =
    eat_whitespace
    >> (eat_if TokenMatch.close_bracket
        >> pure (Expr.array_init (repeated (as_usize count) (Expr.value lit))))
array_of lit count = fail expected

abbrev pub one_type : List Ty → Parse Builtin
one_type (ty ∷ []) = pure (size_of ty)
one_type tys = fail expected

module _ (number : String → ℕ) (parse_f64 : Bool → String → Option ℕ) (in_match : Bool) where
  abbrev pub literal_expr : Parse Expr
  literal_expr = make_literal number parse_f64 >>= (λ lit. pure (Expr.value lit))

  -- `make_lh_expr` behind `*`s, or without them
  unfoldable pub make_star : ℕ → Parse Expr → Parse Expr
  make_star fuel rec =
      count_eaten_seq TokenMatch.star
      >>= (λ indir. make_lh_expr number in_match fuel rec >>= (λ e. pure (Expr.deref indir e)))

  unfoldable pub operand_at : TokenKind → ℕ → Parse Expr → Parse Operand
  operand_at TokenKind.ident fuel rec = with_op (make_lh_expr number in_match fuel rec)
  operand_at TokenKind.minus fuel rec = with_op literal_expr
  operand_at (TokenKind.literal kind suffix_start) fuel rec = with_op literal_expr
  operand_at TokenKind.bang fuel rec = with_op (prefixed TokenMatch.bang rec (Expr.urnary UnOp.not))
  operand_at TokenKind.tilde fuel rec =
      with_op (prefixed TokenMatch.tilde rec (Expr.urnary UnOp.ones_comp))
  operand_at TokenKind.star fuel rec = with_op (make_star fuel rec)
  operand_at TokenKind.and fuel rec = with_op (prefixed TokenMatch.and rec Expr.addr_of)
  operand_at TokenKind.open_paren fuel rec = with_op (
      prefixed TokenMatch.open_paren rec Expr.parens
      >>= (λ e. eat_whitespace >> (eat_if TokenMatch.close_paren >> pure e)))
  operand_at kind fuel rec = fail expected

  unfoldable pub advance_to_op : ℕ → Parse Expr → Parse Operand
  advance_to_op fuel rec toks = operand_at (curr_kind toks) fuel rec toks

  unfoldable pub make_repeat : Parse Expr
  make_repeat =
      eat_if TokenMatch.open_bracket
      >> (eat_whitespace
          >> (make_literal number parse_f64 >>= (λ lit.
              eat_whitespace
              >> (eat_if TokenMatch.semi
                  >> (eat_whitespace
                      >> (make_literal number parse_f64 >>= (λ count. array_of lit count)))))))

  -- The branch of `[`
  unfoldable pub make_array_init : ℕ → Parse Expr → Parse Expr
  make_array_init fuel rec toks =
      elim (cmp_seq_ignore_ws (TokenMatch.open_bracket ∷ TokenMatch.literal ∷ TokenMatch.semi ∷ [])
        toks) [
          | true ↦ make_repeat toks
          | false ↦
              then_at
                (make_expr_list fuel rec TokenMatch.open_bracket TokenMatch.close_bracket toks)
                (λ items. pure (Expr.array_init (to_exprs items)))
        ]

  -- `<<T>::trait>(args)`
  unfoldable pub make_trait_meth : ℕ → Parse Expr → Parse Expr
  make_trait_meth fuel rec =
      eat_if TokenMatch.lt
      >> (make_type_args fuel (make_ty number fuel) >>= (λ type_args.
          make_path number fuel >>= (λ trait_.
            eat_whitespace
            >> (eat_if TokenMatch.gt
                >> (eat_if TokenMatch.open_paren
                    >> (make_arg_list fuel rec [] >>= (λ args.
                        eat_whitespace
                        >> (eat_if TokenMatch.close_paren
                            >> pure (Expr.trait_meth trait_ (to_exprs args) type_args)))))))))

  -- Behind `@`
  unfoldable pub make_builtin : ℕ → Parse Builtin
  make_builtin fuel toks = elim (input_curr toks == "bottom") [
    | true ↦ (eat_if TokenMatch.ident >> pure bottom) toks
    | false ↦ elim (input_curr toks == "size_of") [
      | true ↦
          (eat_if TokenMatch.ident >> (make_type_args fuel (make_ty number fuel) >>= one_type)) toks
      | false ↦ failed expected
    ]
  ]

  -- The branch of operands and operators; a keyword is only `true` or `false`, alone.
  unfoldable pub make_operators : ℕ → Parse Expr → Parse Expr
  make_operators fuel rec toks = elim (is_keyword (input_curr toks)) [
    | true ↦ elim (input_curr toks == "true") [
      | true ↦ literal_expr toks
      | false ↦ elim (input_curr toks == "false") [
        | true ↦ literal_expr toks
        | false ↦ failed expected
      ]
    ]
    | false ↦ yard_loop fuel (advance_to_op fuel rec) [] [] toks
  ]

  unfoldable pub expr_at : TokenKind → ℕ → Parse Expr → Parse Expr
  expr_at TokenKind.open_bracket fuel rec = make_array_init fuel rec
  expr_at TokenKind.lt fuel rec = make_trait_meth fuel rec
  expr_at TokenKind.at fuel rec =
      eat_if TokenMatch.at >> (make_builtin fuel >>= (λ b. pure (Expr.builtin b)))
  expr_at TokenKind.ident fuel rec = make_operators fuel rec
  expr_at (TokenKind.literal kind suffix_start) fuel rec = make_operators fuel rec
  expr_at TokenKind.star fuel rec = make_operators fuel rec
  expr_at TokenKind.minus fuel rec = make_operators fuel rec
  expr_at TokenKind.and fuel rec = make_operators fuel rec
  expr_at TokenKind.bang fuel rec = make_operators fuel rec
  expr_at TokenKind.tilde fuel rec = make_operators fuel rec
  expr_at TokenKind.open_paren fuel rec = make_operators fuel rec
  expr_at kind fuel rec = λ toks. panic

  unfoldable pub make_expr : ℕ → Parse Expr
  make_expr zero toks = out_of_fuel
  make_expr (suc fuel) toks =
      then_at (eat_whitespace toks) (λ u rest. expr_at (curr_kind rest) fuel (make_expr fuel) rest)
