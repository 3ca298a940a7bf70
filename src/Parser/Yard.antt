-- ===== src/Parser/Yard.antt =====
-- src/ast/parse.rs: the shunting yard of `make_expr`, which builds a tree from the operands and
-- operators that `advance_to_op` returns.
pub mod Stack
pub mod Order
pub mod Precedence
use enumc.Prelude.{
  ℕ, Bool, true, false, List, [], ◌∷◌, Option, none, some, ltb, ◌==◌, ◌&&◌, ◌||◌, if◌then◌else◌,
}
use enumc.Parser.Ops.{BinOp, AssocOp, Fixit, precedence, fixity, to_ast_binop}

-- `ast::Range`, without its file
pub record Range : Type 0 where
  pub start : ℕ
  pub stop : ℕ

-- `ast::Expression`: an operand, whatever `advance_to_op` makes of it, or `Expr::Binary`.
pub data Expression (A : Type 0) : Type 0 where
  operand : A → Range → Expression A
  binary : BinOp → Expression A → Expression A → Range → Expression A

-- What `make_expr` returns: an expression, a `ParseError`, or a panic (of an `unwrap` or of the
-- `unreachable!`).
pub data Outcome (A : Type 0) : Type 0 where
  ok : Expression A → Outcome A
  expected_term failed_to_generate panic : Outcome A

-- `next` takes the operators before it off the stack.
unfoldable pub binds_looser : AssocOp → AssocOp → Bool
binds_looser next prev =
    ltb (precedence next) (precedence prev)
    || (precedence next == precedence prev && elim (fixity prev) [ Fixit.left ↦ true | _ ↦ false ])

module _ {A : Type 0} where
  abbrev pub span : Expression A → Range
  span (operand a r) = r
  span (binary op lhs rhs r) = r

  -- `Expr::Binary` with the span from `lhs` to `rhs`; `none` is the panic of `to_ast_binop().unwrap()`.
  unfoldable pub join : AssocOp → Expression A → Expression A → Option (Expression A)
  join op lhs rhs = elim (to_ast_binop op) [
    | none ↦ none
    | some bin ↦
        some (binary bin lhs rhs (record { start = (span lhs).start; stop = (span rhs).stop }))
  ]

  -- `while let Some(lfix_op) = opstack.pop()`: the stacks, with their tops in front, and `finish`.
  unfoldable pub unwind :
      List AssocOp
      → List (Expression A)
      → Expression A
      → Option (List AssocOp × List (Expression A) × Expression A)
  unwind [] output finish = some ([], output, finish)
  unwind (lfix_op ∷ opstack) output finish = elim (fixity lfix_op) [
    | Fixit.left ↦ elim output [
      | [] ↦ none
      | lhs ∷ output' ↦ elim (join lfix_op lhs finish) [
        | none ↦ none
        | some finish' ↦ unwind opstack output' finish'
      ]
    ]
    | _ ↦ some (lfix_op ∷ opstack, output, finish)
  ]

  -- The loop behind the last operand. Its `break` leaves `output` empty.
  unfoldable pub reduce : List AssocOp → List (Expression A) → Outcome A
  reduce [] [] = panic
  reduce [] (expr ∷ output) = ok expr
  reduce (op ∷ opstack) [] = expected_term
  reduce (op ∷ opstack) (rhs ∷ []) = failed_to_generate
  reduce (op ∷ opstack) (rhs ∷ lhs ∷ output) = elim (join op lhs rhs) [
    | none ↦ panic
    | some finish ↦ reduce opstack (finish ∷ output)
  ]

  -- The first branch of the match on `opstack.pop()`: the new `opstack` and `output`.
  unfoldable pub take_off :
      AssocOp
      → AssocOp
      → List AssocOp
      → List (Expression A)
      → Expression A
      → Option (List AssocOp × List (Expression A))
  take_off next prev opstack [] ex = none
  take_off next prev opstack (lhs ∷ output) ex = elim (join prev lhs ex) [
    | none ↦ none
    | some finish ↦ elim (unwind opstack output finish) [
      | none ↦ none
      | some (opstack', output', finish') ↦ some (next ∷ opstack', finish' ∷ output')
    ]
  ]

  -- One round for an operand and the operator behind it.
  unfoldable pub shift :
      List AssocOp
      → List (Expression A)
      → Expression A
      → AssocOp
      → Option (List AssocOp × List (Expression A))
  shift [] output ex next = some (next ∷ [], ex ∷ output)
  shift (prev ∷ opstack) output ex next = elim (binds_looser next prev) [
    | true ↦ take_off next prev opstack output ex
    | false ↦ some (next ∷ prev ∷ opstack, ex ∷ output)
  ]

  -- The `while` loop over what the calls of `advance_to_op` return. The list ends where the loop
  -- finds the current token to be `;`.
  unfoldable pub yard :
      List (Expression A × Option AssocOp) → List AssocOp → List (Expression A) → Outcome A
  yard [] opstack [] = failed_to_generate
  yard [] opstack (expr ∷ output) = ok expr
  yard ((ex, none) ∷ items) opstack output = reduce opstack (ex ∷ output)
  yard ((ex, some next) ∷ items) opstack output = elim (shift opstack output ex next) [
    | none ↦ panic
    | some (opstack', output') ↦ yard items opstack' output'
  ]

  unfoldable pub make_expr : List (Expression A × Option AssocOp) → Outcome A
  make_expr items = yard items [] []
