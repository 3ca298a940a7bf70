-- ===== src/Parser/Ops.antt =====
-- src/ast/parse/ops.rs: `AssocOp`, `Fixit` and the tables of precedence and fixity; and `BinOp` of
-- src/ast/types.rs.
use enumc.Prelude.{ℕ, Bool, true, false, Option, some}

pub data BinOp : Type 0 where
  mul div rem add sub left_shift right_shift lt le ge gt eq ne bit_and bit_xor bit_or : BinOp
  and or add_assign sub_assign : BinOp

pub data AssocOp : Type 0 where
  add subtract multiply divide modulus l_and l_or bit_xor bit_and bit_or : AssocOp
  shift_left shift_right equal less less_equal not_equal greater greater_equal assign : AssocOp
  assign_op : BinOp → AssocOp

pub data Fixit : Type 0 where
  left right none : Fixit

unfoldable pub precedence : AssocOp → ℕ
precedence AssocOp.multiply = 13
precedence AssocOp.divide = 13
precedence AssocOp.modulus = 13
precedence AssocOp.add = 12
precedence AssocOp.subtract = 12
precedence AssocOp.shift_left = 11
precedence AssocOp.shift_right = 11
precedence AssocOp.bit_and = 10
precedence AssocOp.bit_xor = 9
precedence AssocOp.bit_or = 8
precedence AssocOp.less = 7
precedence AssocOp.greater = 7
precedence AssocOp.less_equal = 7
precedence AssocOp.greater_equal = 7
precedence AssocOp.equal = 7
precedence AssocOp.not_equal = 7
precedence AssocOp.l_and = 6
precedence AssocOp.l_or = 5
precedence AssocOp.assign = 2
precedence (AssocOp.assign_op op) = 2

unfoldable pub fixity : AssocOp → Fixit
fixity AssocOp.assign = Fixit.right
fixity (AssocOp.assign_op op) = Fixit.right
fixity _ = Fixit.left

unfoldable pub is_comparison : AssocOp → Bool
is_comparison AssocOp.less = true
is_comparison AssocOp.greater = true
is_comparison AssocOp.less_equal = true
is_comparison AssocOp.greater_equal = true
is_comparison AssocOp.equal = true
is_comparison AssocOp.not_equal = true
is_comparison _ = false

unfoldable pub is_assign_like : AssocOp → Bool
is_assign_like AssocOp.assign = true
is_assign_like (AssocOp.assign_op op) = true
is_assign_like _ = false

unfoldable pub to_ast_binop : AssocOp → Option BinOp
to_ast_binop AssocOp.less = some BinOp.lt
to_ast_binop AssocOp.greater = some BinOp.gt
to_ast_binop AssocOp.less_equal = some BinOp.le
to_ast_binop AssocOp.greater_equal = some BinOp.ge
to_ast_binop AssocOp.equal = some BinOp.eq
to_ast_binop AssocOp.not_equal = some BinOp.ne
to_ast_binop AssocOp.multiply = some BinOp.mul
to_ast_binop AssocOp.divide = some BinOp.div
to_ast_binop AssocOp.modulus = some BinOp.rem
to_ast_binop AssocOp.add = some BinOp.add
to_ast_binop AssocOp.subtract = some BinOp.sub
to_ast_binop AssocOp.shift_left = some BinOp.left_shift
to_ast_binop AssocOp.shift_right = some BinOp.right_shift
to_ast_binop AssocOp.bit_and = some BinOp.bit_and
to_ast_binop AssocOp.bit_xor = some BinOp.bit_xor
to_ast_binop AssocOp.bit_or = some BinOp.bit_or
to_ast_binop AssocOp.l_and = some BinOp.and
to_ast_binop AssocOp.l_or = some BinOp.or
to_ast_binop AssocOp.assign = Option.none
to_ast_binop (AssocOp.assign_op op) = Option.none
