-- ===== src/Types/FoldFuel.antt =====
-- `fold_ty` returns: fuel for each pointer, reference and array of the two types is enough.
use enumc.Prelude.{
  ℕ, zero, suc, ◌+◌, ◌≤◌, ◌<◌, ◌≡◌, refl, Bool, true, false, arith, ◌==◌, if◌then◌else◌,
}
use enumc.Parser.Ops.{BinOp}
use enumc.Types.Ty.{
  Ty, generic, array, struct, enum, ptr, ref, const_str, int, char, float, bool, void, func,
  Resolved, ok, fails, peel, resolve_from, resolve,
}
use enumc.Types.Fold.{
  Folded, typed, math_ops, char_ops, bool_ops, pointer_ops, array_of, both, fold_ty,
}

-- The pointers, references and arrays on the way to the innermost type.
abbrev pub depth : Ty → ℕ
depth (array size t) = suc (depth t)
depth (ptr t) = suc (depth t)
depth (ref t) = suc (depth t)
depth _ = 0

abbrev pub returned : Folded → Bool
returned Folded.out_of_fuel = false
returned _ = true

-- What `resolve` returned is at most so deep.
abbrev Within : ℕ → Resolved → Type 0
Within n (ok t) = depth t ≤ n
Within n _ = Unit {0}

Within-mono : (m n : ℕ) (r : Resolved) → m ≤ n → Within m r → Within n r
Within-mono m n (ok t) h w = omega arith
Within-mono m n fails h w = tt
Within-mono m n Resolved.panic h w = tt

peel-Within : (n : ℕ) (ty : Ty) → Within (depth ty) (peel n ty)
unfolding peel
peel-Within zero ty = omega arith
peel-Within (suc n) (ptr t) =
    Within-mono (depth t) (suc (depth t)) (peel n t) (omega arith) (peel-Within n t)
peel-Within (suc n) (array size t) = tt
peel-Within (suc n) (const_str size) = tt
peel-Within (suc n) _ = tt

resolve_from-Within : (ty : Ty) (n : ℕ) → Within (depth ty) (resolve_from ty n)
unfolding resolve_from
resolve_from-Within (ref t) n =
    Within-mono (depth t) (suc (depth t)) (resolve_from t (n + 1)) (omega arith)
      (resolve_from-Within t (n + 1))
resolve_from-Within ty n = peel-Within n ty

resolve-Within : (t : Ty) → Within (depth t) (resolve (ref t))
unfolding resolve resolve_from
resolve-Within t = resolve_from-Within t (0 + 1)

math_ops-returned : (op : BinOp) (ty : Ty) → returned (math_ops op ty) ≡ true
unfolding math_ops
math_ops-returned BinOp.mul ty = refl
math_ops-returned BinOp.div ty = refl
math_ops-returned BinOp.rem ty = refl
math_ops-returned BinOp.add ty = refl
math_ops-returned BinOp.sub ty = refl
math_ops-returned BinOp.left_shift ty = refl
math_ops-returned BinOp.right_shift ty = refl
math_ops-returned BinOp.lt ty = refl
math_ops-returned BinOp.le ty = refl
math_ops-returned BinOp.ge ty = refl
math_ops-returned BinOp.gt ty = refl
math_ops-returned BinOp.eq ty = refl
math_ops-returned BinOp.ne ty = refl
math_ops-returned BinOp.bit_and ty = refl
math_ops-returned BinOp.bit_xor ty = refl
math_ops-returned BinOp.bit_or ty = refl
math_ops-returned BinOp.and ty = refl
math_ops-returned BinOp.or ty = refl
math_ops-returned BinOp.add_assign ty = refl
math_ops-returned _ ty = refl

char_ops-returned : (op : BinOp) → returned (char_ops op) ≡ true
unfolding char_ops
char_ops-returned BinOp.eq = refl
char_ops-returned BinOp.ne = refl
char_ops-returned BinOp.lt = refl
char_ops-returned BinOp.le = refl
char_ops-returned BinOp.gt = refl
char_ops-returned BinOp.ge = refl
char_ops-returned BinOp.add = refl
char_ops-returned _ = refl

pointer_ops-returned : (op : BinOp) (ty : Ty) → returned (pointer_ops op ty) ≡ true
unfolding pointer_ops
pointer_ops-returned BinOp.add ty = refl
pointer_ops-returned BinOp.sub ty = refl
pointer_ops-returned BinOp.mul ty = refl
pointer_ops-returned BinOp.div ty = refl
pointer_ops-returned BinOp.rem ty = refl
pointer_ops-returned BinOp.left_shift ty = refl
pointer_ops-returned BinOp.right_shift ty = refl
pointer_ops-returned BinOp.bit_and ty = refl
pointer_ops-returned BinOp.bit_xor ty = refl
pointer_ops-returned BinOp.bit_or ty = refl
pointer_ops-returned _ ty = refl

bool_ops-returned : (op : BinOp) → returned (bool_ops op) ≡ true
unfolding bool_ops
bool_ops-returned BinOp.and = refl
bool_ops-returned BinOp.or = refl
bool_ops-returned _ = refl

array_of-returned : (size : ℕ) (r : Folded) → returned r ≡ true → returned (array_of size r) ≡ true
array_of-returned size (typed ty) h = refl
array_of-returned size Folded.illegal h = refl
array_of-returned size Folded.untyped h = refl
array_of-returned size Folded.panic h = refl
array_of-returned size Folded.out_of_fuel h = cc

if-returned :
    (c : Bool) (r : Folded) → returned r ≡ true → returned (if c then r else Folded.untyped) ≡ true
if-returned true r h = h
if-returned false r h = refl

both-returned :
    (k : Ty → Ty → Folded) (m n : ℕ) (a b : Resolved)
    → Within m a
    → Within n b
    → ((x y : Ty) → depth x ≤ m → depth y ≤ n → returned (k x y) ≡ true)
    → returned (both k a b) ≡ true
both-returned k m n Resolved.panic b u v h = refl
both-returned k m n (ok x) Resolved.panic u v h = refl
both-returned k m n fails Resolved.panic u v h = refl
both-returned k m n (ok x) (ok y) u v h = h x y u v
both-returned k m n (ok x) fails u v h = refl
both-returned k m n fails (ok y) u v h = refl
both-returned k m n fails fails u v h = refl

-- `fold_ty` does not run out of fuel if there is more than the pointers, references and arrays of
-- both types.
pub fold_ty-returned :
    (fuel : ℕ) (lhs rhs : Ty) (op : BinOp)
    → depth lhs + depth rhs < fuel
    → returned (fold_ty fuel lhs rhs op) ≡ true
unfolding fold_ty
fold_ty-returned zero lhs rhs op h = absurd (omega arith)
fold_ty-returned (suc fuel) int int op h = math_ops-returned op int
fold_ty-returned (suc fuel) float float op h = math_ops-returned op float
fold_ty-returned (suc fuel) int float op h = math_ops-returned op float
fold_ty-returned (suc fuel) float int op h = math_ops-returned op float
fold_ty-returned (suc fuel) char char op h = char_ops-returned op
fold_ty-returned (suc fuel) (const_str s1) (const_str s2) op h = refl
fold_ty-returned (suc fuel) (ptr t) int op h = pointer_ops-returned op t
fold_ty-returned (suc zero) int (ptr t) op h = absurd (omega arith)
fold_ty-returned (suc (suc fuel)) int (ptr t) op h = pointer_ops-returned op t
fold_ty-returned (suc fuel) (array size t1) (array s t2) op h =
    if-returned (size == s) _ (
      array_of-returned size (fold_ty fuel t1 t2 op) (fold_ty-returned fuel t1 t2 op (omega arith)))
fold_ty-returned (suc fuel) void void op h = refl
fold_ty-returned (suc fuel) bool bool op h = bool_ops-returned op
fold_ty-returned (suc fuel) (struct ident gen) t op h = refl
fold_ty-returned (suc fuel) (enum ident gen) t op h = refl
fold_ty-returned (suc fuel) (ptr t) u op h = refl
fold_ty-returned (suc fuel) (ref r) (ref t) op h =
    both-returned _ (depth r) (depth t) _ _ (resolve-Within r) (resolve-Within t)
      (λ x y a b. fold_ty-returned fuel x y op (omega arith))
fold_ty-returned (suc fuel) (ref r) t op h =
    both-returned _ (depth r) (depth t) _ (ok t) (resolve-Within r) (omega arith)
      (λ x y a b. fold_ty-returned fuel x y op (omega arith))
fold_ty-returned (suc fuel) r (ref t) op h =
    both-returned _ (depth r) (depth t) (ok r) _ (omega arith) (resolve-Within t)
      (λ x y a b. fold_ty-returned fuel x y op (omega arith))
fold_ty-returned (suc fuel) (generic ident bound) t op h = refl
fold_ty-returned (suc fuel) (func ident ret params) t op h = refl
fold_ty-returned (suc fuel) _ _ op h = refl
