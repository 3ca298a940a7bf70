-- ===== src/Types/Fold.antt =====
-- src/typeck/check.rs: `fold_ty`, the type of a binary operation, with `math_ops`, `is_truthy` and
-- `lit_to_type`.
use enumc.Prelude.{ℕ, zero, suc, Bool, true, false, Option, some, ◌==◌, if◌then◌else◌}
use enumc.Lexer.Chars.{str_len}
use enumc.Parser.Ops.{BinOp}
use enumc.Types.Ty.{
  Ty, generic, array, struct, enum, ptr, ref, const_str, int, char, float, bool, void, func,
  Resolved, ok, resolve,
}
use enumc.Lir.Val

-- What `fold_ty` returns: a type; `None` with an error pushed to `tcxt.errors`; `None`; a panic.
pub data Folded : Type 0 where
  typed : Ty → Folded
  illegal untyped panic out_of_fuel : Folded

unfoldable pub math_ops : BinOp → Ty → Folded
math_ops BinOp.add ret_ty = typed ret_ty
math_ops BinOp.sub ret_ty = typed ret_ty
math_ops BinOp.mul ret_ty = typed ret_ty
math_ops BinOp.div ret_ty = typed ret_ty
math_ops BinOp.rem ret_ty = typed ret_ty
math_ops BinOp.left_shift ret_ty = typed ret_ty
math_ops BinOp.right_shift ret_ty = typed ret_ty
math_ops BinOp.bit_and ret_ty = typed ret_ty
math_ops BinOp.bit_xor ret_ty = typed ret_ty
math_ops BinOp.bit_or ret_ty = typed ret_ty
math_ops BinOp.eq ret_ty = typed bool
math_ops BinOp.ne ret_ty = typed bool
math_ops BinOp.lt ret_ty = typed bool
math_ops BinOp.le ret_ty = typed bool
math_ops BinOp.gt ret_ty = typed bool
math_ops BinOp.ge ret_ty = typed bool
math_ops BinOp.and ret_ty = typed bool
math_ops BinOp.or ret_ty = typed bool
math_ops BinOp.add_assign ret_ty = illegal
math_ops BinOp.sub_assign ret_ty = illegal

unfoldable pub char_ops : BinOp → Folded
char_ops BinOp.eq = typed bool
char_ops BinOp.ne = typed bool
char_ops BinOp.lt = typed bool
char_ops BinOp.le = typed bool
char_ops BinOp.gt = typed bool
char_ops BinOp.ge = typed bool
char_ops BinOp.add = typed char
char_ops _ = illegal

unfoldable pub pointer_ops : BinOp → Ty → Folded
pointer_ops BinOp.add t = typed (ptr t)
pointer_ops BinOp.sub t = typed (ptr t)
pointer_ops BinOp.mul t = typed (ptr t)
pointer_ops BinOp.div t = typed (ptr t)
pointer_ops BinOp.rem t = typed (ptr t)
pointer_ops BinOp.left_shift t = typed (ptr t)
pointer_ops BinOp.right_shift t = typed (ptr t)
pointer_ops BinOp.bit_and t = typed (ptr t)
pointer_ops BinOp.bit_xor t = typed (ptr t)
pointer_ops BinOp.bit_or t = typed (ptr t)
pointer_ops _ t = illegal

unfoldable pub bool_ops : BinOp → Folded
bool_ops BinOp.and = typed bool
bool_ops BinOp.or = typed bool
bool_ops _ = illegal

-- `?` behind the call for the elements of an array
abbrev pub array_of : ℕ → Folded → Folded
array_of size (typed ty) = typed (array size ty)
array_of size folded = folded

-- `(lhs?, rhs?)` of what `resolve` returned
abbrev pub both : (Ty → Ty → Folded) → Resolved → Resolved → Folded
both k Resolved.panic b = panic
both k a Resolved.panic = panic
both k (ok a) (ok b) = k a b
both k _ _ = untyped

unfoldable pub fold_ty : ℕ → Ty → Ty → BinOp → Folded
fold_ty zero lhs rhs op = out_of_fuel
fold_ty (suc fuel) int int op = math_ops op int
fold_ty (suc fuel) float float op = math_ops op float
fold_ty (suc fuel) int float op = math_ops op float
fold_ty (suc fuel) float int op = math_ops op float
fold_ty (suc fuel) char char op = char_ops op
fold_ty (suc fuel) (const_str s1) (const_str s2) op = panic
fold_ty (suc fuel) (ptr t) int op = pointer_ops op t
fold_ty (suc fuel) int (ptr t) op = fold_ty fuel (ptr t) int op
fold_ty (suc fuel) (array size t1) (array s t2) op =
    let elements = array_of size (fold_ty fuel t1 t2 op) in if size == s then elements else untyped
fold_ty (suc fuel) void void op = typed void
fold_ty (suc fuel) bool bool op = bool_ops op
fold_ty (suc fuel) (struct ident gen) t op = panic
fold_ty (suc fuel) (enum ident gen) t op = panic
fold_ty (suc fuel) (ptr t) u op = panic
fold_ty (suc fuel) (ref r) (ref t) op =
    both (λ a b. fold_ty fuel a b op) (resolve (ref r)) (resolve (ref t))
fold_ty (suc fuel) (ref r) t op = both (λ a b. fold_ty fuel a b op) (resolve (ref r)) (ok t)
fold_ty (suc fuel) r (ref t) op = both (λ a b. fold_ty fuel a b op) (ok r) (resolve (ref t))
fold_ty (suc fuel) (generic ident bound) t op = panic
fold_ty (suc fuel) (func ident ret params) t op = panic
fold_ty (suc fuel) _ _ op = untyped

unfoldable pub is_truthy : Option Ty → Bool
is_truthy (some (ptr t)) = true
is_truthy (some (ref t)) = true
is_truthy (some (const_str size)) = true
is_truthy (some int) = true
is_truthy (some char) = true
is_truthy (some float) = true
is_truthy (some bool) = true
is_truthy _ = false

-- `ty::Val` has the constructors of the IR's `Val`.
unfoldable pub lit_to_type : Val.Val → Ty
lit_to_type (Val.float f) = float
lit_to_type (Val.int i) = int
lit_to_type (Val.char c) = char
lit_to_type (Val.bool b) = bool
lit_to_type (Val.str s) = const_str (str_len s)
