-- ===== src/Parser/Yard/Stack.antt =====
-- What the two stacks of the shunting yard stand for, and one round of it in these terms.
use enumc.Prelude.{
  ◌≡◌, inl, inr, refl, true, false, List, [], ◌∷◌, Option, none, some, leb, Bool-cases, arith,
}
use enumc.Parser.Ops.{BinOp, AssocOp, Fixit, precedence, fixity, is_assign_like, to_ast_binop}
use enumc.Parser.Yard.{
  Expression, binary, ok, span, join, unwind, reduce, binds_looser, take_off, shift, yard,
  make_expr,
}

-- The operators of expressions, which are those that `make_op` returns.
abbrev pub IsBinary : AssocOp → Type 0
IsBinary op = is_assign_like op ≡ false

-- The node of the tree for an operator; only binary operators have one.
abbrev pub node : AssocOp → BinOp
node op = elim (to_ast_binop op) [ none ↦ BinOp.add_assign | some bin ↦ bin ]

pub to_ast_binop-node : (op : AssocOp) → IsBinary op → to_ast_binop op ≡ some (node op)
unfolding is_assign_like to_ast_binop
to_ast_binop-node op h = ground arith

pub IsBinary-left : (op : AssocOp) → IsBinary op → fixity op ≡ Fixit.left
unfolding is_assign_like fixity
IsBinary-left op h = ground arith

-- An operator gives way to the next one exactly if that does not bind tighter.
pub binds_looser-leb :
    (next prev : AssocOp)
    → IsBinary prev
    → binds_looser next prev ≡ leb (precedence next) (precedence prev)
unfolding binds_looser
binds_looser-leb next prev h = rw (IsBinary-left prev h) (ground arith)

-- A stack of left operands, each with the operator behind it; the innermost is in front.
abbrev pub Pending : Type 0 → Type 0
Pending A = List (Expression A × AssocOp)

module _ {A : Type 0} where
  abbrev pub opstack : Pending A → List AssocOp
  opstack [] = []
  opstack ((lhs, op) ∷ pending) = op ∷ opstack pending

  abbrev pub output : Pending A → List (Expression A)
  output [] = []
  output ((lhs, op) ∷ pending) = lhs ∷ output pending

  abbrev pub AllBinary : Pending A → Type 0
  AllBinary [] = Unit
  AllBinary ((lhs, op) ∷ pending) = IsBinary op × AllBinary pending

  abbrev pub joined : AssocOp → Expression A → Expression A → Expression A
  joined op lhs rhs =
      binary (node op) lhs rhs (record { start = (span lhs).start; stop = (span rhs).stop })

  -- All that is pending applied to one operand, from the inside out.
  unfoldable pub collapse : Pending A → Expression A → Expression A
  collapse [] rhs = rhs
  collapse ((lhs, op) ∷ pending) rhs = collapse pending (joined op lhs rhs)

  pub join-joined :
      (op : AssocOp) (lhs rhs : Expression A)
      → IsBinary op
      → join op lhs rhs ≡ some (joined op lhs rhs)
  unfolding join
  join-joined op lhs rhs h = ground (arith, to_ast_binop-node op h)

  unwind-collapse :
      (pending : Pending A) (finish : Expression A)
      → AllBinary pending
      → unwind (opstack pending) (output pending) finish ≡ some ([], [], collapse pending finish)
  unfolding unwind collapse
  unwind-collapse [] finish h = refl
  unwind-collapse ((lhs, op) ∷ pending) finish h =
      rw (IsBinary-left op h.0, unwind)
        (rw (join-joined op lhs finish h.0) (unwind-collapse pending (joined op lhs finish) h.1))

  pub reduce-collapse :
      (pending : Pending A) (rhs : Expression A)
      → AllBinary pending
      → reduce (opstack pending) (rhs ∷ output pending) ≡ ok (collapse pending rhs)
  unfolding reduce collapse
  reduce-collapse [] rhs h = refl
  reduce-collapse ((lhs, op) ∷ pending) rhs h =
      rw (join-joined op lhs rhs h.0, reduce) (reduce-collapse pending (joined op lhs rhs) h.1)

  -- What is pending after one more operand and the operator behind it.
  abbrev pub push : Pending A → Expression A → AssocOp → Pending A
  push [] ex next = (ex, next) ∷ []
  push ((lhs, op) ∷ pending) ex next = elim (leb (precedence next) (precedence op)) [
    | true ↦ (collapse ((lhs, op) ∷ pending) ex, next) ∷ []
    | false ↦ (ex, next) ∷ (lhs, op) ∷ pending
  ]

  take_off-collapse :
      (next op : AssocOp) (lhs : Expression A) (pending : Pending A) (ex : Expression A)
      → IsBinary op
      → AllBinary pending
      → take_off next op (opstack pending) (lhs ∷ output pending) ex
        ≡ some (next ∷ [], collapse ((lhs, op) ∷ pending) ex ∷ [])
  unfolding take_off collapse
  take_off-collapse next op lhs pending ex h k =
      rw (join-joined op lhs ex h, take_off) (rw (unwind-collapse pending (joined op lhs ex) k))

  -- One round of the yard.
  pub shift-push :
      (pending : Pending A) (ex : Expression A) (next : AssocOp)
      → AllBinary pending
      → shift (opstack pending) (output pending) ex next
        ≡ some (opstack (push pending ex next), output (push pending ex next))
  unfolding shift
  shift-push [] ex next h = refl
  shift-push ((lhs, op) ∷ pending) ex next h =
      elim (Bool-cases (leb (precedence next) (precedence op))) [
        | inl e ↦
            rw (binds_looser-leb next op h.0, shift)
              (rw (e, push) (take_off-collapse next op lhs pending ex h.0 h.1))
        | inr e ↦ rw (binds_looser-leb next op h.0, shift) (rw (e, push))
      ]

  pub push-AllBinary :
      (pending : Pending A) (ex : Expression A) (next : AssocOp)
      → AllBinary pending
      → IsBinary next
      → AllBinary (push pending ex next)
  push-AllBinary [] ex next h k = (k, tt)
  push-AllBinary ((lhs, op) ∷ pending) ex next h k =
      elim (Bool-cases (leb (precedence next) (precedence op))) [
        | inl e ↦ rw (e, push) (k, tt)
        | inr e ↦ rw (e, push) (k, h)
      ]

  -- What `advance_to_op` returns along such an expression.
  abbrev pub items :
      List (Expression A × AssocOp) → Expression A → List (Expression A × Option AssocOp)
  items [] last = (last, none) ∷ []
  items ((ex, op) ∷ chain) last = (ex, some op) ∷ items chain last

  -- The yard in terms of what is pending.
  abbrev pub run : List (Expression A × AssocOp) → Pending A → Expression A → Expression A
  run [] pending last = collapse pending last
  run ((ex, op) ∷ chain) pending last = run chain (push pending ex op) last

  pub yard-run :
      (chain : List (Expression A × AssocOp)) (pending : Pending A) (last : Expression A)
      → AllBinary chain
      → AllBinary pending
      → yard (items chain last) (opstack pending) (output pending) ≡ ok (run chain pending last)
  unfolding yard
  yard-run [] pending last h k = reduce-collapse pending last k
  yard-run ((ex, op) ∷ chain) pending last h k =
      rw (shift-push pending ex op k, yard)
        (yard-run chain (push pending ex op) last h.1 (push-AllBinary pending ex op k h.0))

  pub make_expr-run :
      (chain : List (Expression A × AssocOp)) (last : Expression A)
      → AllBinary chain
      → make_expr (items chain last) ≡ ok (run chain [] last)
  unfolding make_expr
  make_expr-run chain last h = yard-run chain [] last h tt
