-- ===== src/Lir/Op.antt =====
-- src/lir/lower.rs: the operators of the IR.
use enumc.Prelude.{Bool, true, false}
use enumc.Parser.Ops

pub data UnOp : Type 0 where
  not ones_comp : UnOp

pub data BinOp : Type 0 where
  mul div rem add sub left_shift right_shift lt le ge gt eq ne bit_and bit_xor bit_or : BinOp
  and or add_assign sub_assign : BinOp

-- `BinOp::lower`
unfoldable pub lower : Ops.BinOp → BinOp
lower Ops.BinOp.mul = BinOp.mul
lower Ops.BinOp.div = BinOp.div
lower Ops.BinOp.rem = BinOp.rem
lower Ops.BinOp.add = BinOp.add
lower Ops.BinOp.sub = BinOp.sub
lower Ops.BinOp.left_shift = BinOp.left_shift
lower Ops.BinOp.right_shift = BinOp.right_shift
lower Ops.BinOp.lt = BinOp.lt
lower Ops.BinOp.le = BinOp.le
lower Ops.BinOp.ge = BinOp.ge
lower Ops.BinOp.gt = BinOp.gt
lower Ops.BinOp.eq = BinOp.eq
lower Ops.BinOp.ne = BinOp.ne
lower Ops.BinOp.bit_and = BinOp.bit_and
lower Ops.BinOp.bit_xor = BinOp.bit_xor
lower Ops.BinOp.bit_or = BinOp.bit_or
lower Ops.BinOp.and = BinOp.and
lower Ops.BinOp.or = BinOp.or
lower Ops.BinOp.add_assign = BinOp.add_assign
lower Ops.BinOp.sub_assign = BinOp.sub_assign

unfoldable pub is_cmp : BinOp → Bool
is_cmp BinOp.lt = true
is_cmp BinOp.le = true
is_cmp BinOp.ge = true
is_cmp BinOp.gt = true
is_cmp BinOp.eq = true
is_cmp BinOp.ne = true
is_cmp _ = false
