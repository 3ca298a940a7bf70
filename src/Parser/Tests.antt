-- ===== src/Parser/Tests.antt =====
-- Runs of the expression parser, and the theorems about it at concrete inputs.
use enumc.Prelude.{ℕ, ◌≡◌, refl, List, [], ◌∷◌, arith}
use enumc.Parser.Ops.{BinOp, AssocOp, precedence, fixity, is_assign_like, to_ast_binop}
use enumc.Parser.Yard.{
  Range, Expression, operand, binary, ok, span, join, unwind, reduce, binds_looser, take_off, shift,
  yard, make_expr,
}
use enumc.Parser.Yard.Stack.{items, joined}
use enumc.Parser.Yard.Order.{inorder, line, head, make_expr-inorder}
use enumc.Parser.Yard.Precedence.{respects, agrees, make_expr-respects, make_expr-misgroups}
use enumc.Parser.Interner.{
  Interner, same, find, insert, collect, pre_load, intern, lookup_tkn, lookup_str,
}
use enumc.Parser.Interner.Laws.{IsPaired, Interned, intern-Interned}

abbrev at : ℕ → ℕ → Range
at start stop = record { start = start; stop = stop }

-- Operands are named by numbers.
abbrev x0 : Expression ℕ
x0 = operand 0 (at 0 1)

abbrev x1 : Expression ℕ
x1 = operand 1 (at 4 5)

abbrev x2 : Expression ℕ
x2 = operand 2 (at 8 9)

abbrev x3 : Expression ℕ
x3 = operand 3 (at 12 13)

-- `x0 + x1 * x2 * x3`
abbrev chain : List (Expression ℕ × AssocOp)
chain = (x0, AssocOp.add) ∷ (x1, AssocOp.multiply) ∷ (x2, AssocOp.multiply) ∷ []

-- It is read as `(x0 + x1 * x2) * x3`.
make_expr-chain :
    make_expr (items chain x3)
    ≡ ok (
        binary BinOp.mul
          (binary BinOp.add x0 (binary BinOp.mul x1 x2 (at 4 9)) (at 0 9))
          x3
          (at 0 13))
unfolding make_expr yard shift take_off reduce unwind join binds_looser precedence fixity
    to_ast_binop
make_expr-chain = refl

-- `x0 * x1 + x2 == x3` is read as it is meant.
make_expr_falling :
    make_expr (items ((x0, AssocOp.multiply) ∷ (x1, AssocOp.add) ∷ (x2, AssocOp.equal) ∷ []) x3)
    ≡ ok (
        binary BinOp.eq
          (binary BinOp.add (binary BinOp.mul x0 x1 (at 0 5)) x2 (at 0 9))
          x3
          (at 0 13))
unfolding make_expr yard shift take_off reduce unwind join binds_looser precedence fixity
    to_ast_binop
make_expr_falling = refl

make_expr-inorder_example :
    (t : Expression ℕ) × (make_expr (items chain x3) ≡ ok t)
    × (inorder t ≡ line chain x3)
    × ((span t).start ≡ (span (head chain x3)).start)
    × ((span t).stop ≡ (span x3).stop)
unfolding is_assign_like
make_expr-inorder_example = make_expr-inorder chain x3 (refl, (refl, (refl, tt)))

make_expr-respects_example :
    (t : Expression ℕ) × (make_expr (items chain x3) ≡ ok t) × (respects t ≡ agrees chain)
unfolding is_assign_like
make_expr-respects_example =
    make_expr-respects chain x3 (refl, (refl, (refl, tt))) (tt, (tt, (tt, tt))) tt

make_expr-misgroups_example :
    make_expr (items chain x3)
    ≡ ok (joined AssocOp.multiply (joined AssocOp.add x0 (joined AssocOp.multiply x1 x2)) x3)
unfolding is_assign_like precedence
make_expr-misgroups_example =
    make_expr-misgroups x0 x1 x2 x3 AssocOp.add AssocOp.multiply AssocOp.multiply
      (refl, (refl, (refl, tt))) (omega arith) (omega arith)

abbrev no_names : Interner
no_names = record { map = []; vec = [] }

no_names-IsPaired : IsPaired no_names
unfolding lookup_tkn lookup_str find
no_names-IsPaired = record { is_named = λ n i e. cc; is_numbered = λ n i e. cc; is_long = refl }

-- `ab` as number 0
abbrev one_name : Interner
one_name = record { map = ((b'a' ∷ b'b' ∷ []), 0) ∷ []; vec = (b'a' ∷ b'b' ∷ []) ∷ [] }

one_name-IsPaired : IsPaired one_name
unfolding intern find insert
one_name-IsPaired =
    (intern-Interned no_names (b'a' ∷ b'b' ∷ []) no_names-IsPaired (omega arith)).is_paired

preloaded : pre_load ((b'a' ∷ b'b' ∷ []) ∷ []) ≡ one_name
unfolding pre_load collect insert
preloaded = refl

-- A new name gets the next number.
interned_new : intern one_name (b'a' ∷ []) ≡ (
  1,
  record {
    map = ((b'a' ∷ b'b' ∷ []), 0) ∷ ((b'a' ∷ []), 1) ∷ [];
    vec = (b'a' ∷ b'b' ∷ []) ∷ (b'a' ∷ []) ∷ [];
  },
)
unfolding intern find insert same
interned_new = refl

intern-Interned_example : Interned one_name (b'a' ∷ []) (intern one_name (b'a' ∷ []))
intern-Interned_example = intern-Interned one_name (b'a' ∷ []) one_name-IsPaired (omega arith)
