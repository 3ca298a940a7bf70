-- ===== src/Types/FoldSound.antt =====
-- The types that `fold_ty` gives to constants are those of the constants that folding makes of them.
use enumc.Prelude.{
  ℕ, suc, ◌≡◌, refl, subst, Bool, true, false, ltb, Option, none, some, if◌then◌else◌,
}
use enumc.Parser.Ops.{BinOp}
use enumc.Types.Ty.{Ty, int, float}
use enumc.Types.Fold.{Folded, typed, math_ops, char_ops, bool_ops, fold_ty, lit_to_type}
use enumc.Lir.Op.{lower}
use enumc.Lir.Isize.{ℤ}
use enumc.Lir.Val
use enumc.Lir.Val.{Float64, as_int, int_op, char_op, bool_op, float_op, evaluate}

-- A constant, if there is one, has the type, if there is one.
abbrev HasType : Option Val.Val → Folded → Type 0
HasType (some v) (typed ty) = lit_to_type v ≡ ty
HasType _ _ = Unit {0}

HasType-as_int : (o : Option ℤ) → HasType (as_int o) (typed int)
unfolding lit_to_type
HasType-as_int none = tt
HasType-as_int (some z) = refl

HasType-panic : (o : Option Val.Val) → HasType o Folded.panic
HasType-panic none = tt
HasType-panic (some v) = tt

HasType-int_op : (a b : ℤ) (op : BinOp) → HasType (int_op a b (lower op)) (math_ops op int)
unfolding lit_to_type int_op lower math_ops
HasType-int_op a b BinOp.mul = HasType-as_int _
HasType-int_op a b BinOp.div = HasType-as_int _
HasType-int_op a b BinOp.rem = HasType-as_int _
HasType-int_op a b BinOp.add = HasType-as_int _
HasType-int_op a b BinOp.sub = HasType-as_int _
HasType-int_op a b BinOp.left_shift = HasType-as_int _
HasType-int_op a b BinOp.right_shift = HasType-as_int _
HasType-int_op a b BinOp.add_assign = tt
HasType-int_op a b BinOp.sub_assign = tt
HasType-int_op a b _ = refl

HasType-char_op : (a b : ℕ) (op : BinOp) → HasType (char_op a b (lower op)) (char_ops op)
unfolding lit_to_type char_op lower char_ops
HasType-char_op a b BinOp.lt = refl
HasType-char_op a b BinOp.le = refl
HasType-char_op a b BinOp.gt = refl
HasType-char_op a b BinOp.ge = refl
HasType-char_op a b BinOp.eq = refl
HasType-char_op a b BinOp.ne = refl
HasType-char_op a b _ = tt

HasType-bool_op : (a b : Bool) (op : BinOp) → HasType (bool_op a b (lower op)) (bool_ops op)
unfolding lit_to_type bool_op lower bool_ops
HasType-bool_op a b BinOp.and = refl
HasType-bool_op a b BinOp.or = refl
HasType-bool_op a b BinOp.add_assign = tt
HasType-bool_op a b BinOp.sub_assign = tt
HasType-bool_op a b _ = tt

HasType-if : (c : Bool) (n : ℕ) → HasType (if c then some (Val.float n) else none) (typed float)
unfolding lit_to_type
HasType-if true n = refl
HasType-if false n = tt

HasType-float_op :
    (f : Float64) (a b : ℕ) (op : BinOp) → HasType (float_op f a b (lower op)) (math_ops op float)
unfolding lit_to_type float_op lower math_ops
HasType-float_op f a b BinOp.left_shift = HasType-if (ltb b 64) _
HasType-float_op f a b BinOp.right_shift = HasType-if (ltb b 64) _
HasType-float_op f a b BinOp.bit_and = tt
HasType-float_op f a b BinOp.bit_or = tt
HasType-float_op f a b BinOp.bit_xor = tt
HasType-float_op f a b BinOp.add_assign = tt
HasType-float_op f a b BinOp.sub_assign = tt
HasType-float_op f a b _ = refl

HasType-evaluate :
    (f : Float64) (fuel : ℕ) (v w : Val.Val) (op : BinOp)
    → HasType (evaluate f v (lower op) w) (fold_ty (suc fuel) (lit_to_type v) (lit_to_type w) op)
unfolding lit_to_type evaluate fold_ty
HasType-evaluate f fuel (Val.int a) (Val.int b) op = HasType-int_op a b op
HasType-evaluate f fuel (Val.float a) (Val.float b) op = HasType-float_op f a b op
HasType-evaluate f fuel (Val.char a) (Val.char b) op = HasType-char_op a b op
HasType-evaluate f fuel (Val.bool a) (Val.bool b) op = HasType-bool_op a b op
HasType-evaluate f fuel (Val.str a) (Val.str b) op = HasType-panic _
HasType-evaluate f fuel _ _ op = tt

-- If the checker gives an operation on two constants a type and the folding gives it a value, the
-- value has that type.
pub fold_ty-evaluate :
    (f : Float64) (fuel : ℕ) (v w r : Val.Val) (op : BinOp) (ty : Ty)
    → fold_ty (suc fuel) (lit_to_type v) (lit_to_type w) op ≡ typed ty
    → evaluate f v (lower op) w ≡ some r
    → lit_to_type r ≡ ty
fold_ty-evaluate f fuel v w r op ty checked folded = subst (HasType (some r)) checked (
    subst (λ o. HasType o (fold_ty (suc fuel) (lit_to_type v) (lit_to_type w) op)) folded
      (HasType-evaluate f fuel v w op))
