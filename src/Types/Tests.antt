-- ===== src/Types/Tests.antt =====
-- Tests of the methods of `Ty`, and examples of their theorems.
use enumc.Prelude.{◌≡◌, refl, true, false, [], ◌∷◌, some, none}
use enumc.Types.Ty.{
  Ty, generic, array, struct, enum, ptr, ref, int, char, float, bool, bottom, nil, cons, generics,
  has_generics, subst_generic, dereference, ok, panic, resolve, resolve_from, peel, array_dim,
  is_ty_eq,
}
use enumc.Types.Indirection.{pointers, resolve-dereference}
use enumc.Types.Generics.{replace_in, generics-subst_generic}
use enumc.Types.Fold.{typed, math_ops, char_ops, fold_ty, lit_to_type}
use enumc.Types.FoldFuel.{returned, fold_ty-returned}
use enumc.Types.FoldSound.{fold_ty-evaluate}
use enumc.Parser.Ops.{BinOp}
use enumc.Lir.Isize.{pos, lt}
use enumc.Lir.Op.{lower}
use enumc.Lir.Val
use enumc.Lir.Val.{Float64, int_op, evaluate}
use native.Mathlib.Omega.{arith}

-- `enum Pair<A, &B>`
abbrev pair : Ty
pair = enum 7 (cons (generic 0 none) (cons (ptr (generic 1 none)) nil))

-- A struct with arguments counts as generic, whether or not they are.
has_generics_struct : has_generics (struct 7 (cons int nil)) ≡ true
unfolding has_generics
has_generics_struct = refl

generics_struct : generics (struct 7 (cons int nil)) ≡ some []
unfolding generics
generics_struct = refl

-- The comparison is not transitive: the type that never returns equals every other.
bottom_int : is_ty_eq int bottom ≡ true
unfolding is_ty_eq
bottom_int = refl

bottom_bool : is_ty_eq bottom bool ≡ true
unfolding is_ty_eq
bottom_bool = refl

int_bool : is_ty_eq int bool ≡ false
unfolding is_ty_eq
int_bool = refl

-- Nor does it count the arguments.
enum_arguments : is_ty_eq (enum 7 nil) (enum 7 (cons int nil)) ≡ true
unfolding is_ty_eq
enum_arguments = refl

array_dim_two : array_dim (array 3 (array 4 int)) ≡ 2
unfolding array_dim
array_dim_two = refl

resolve_array : resolve (ref (array 3 int)) ≡ panic
unfolding resolve resolve_from peel
resolve_array = refl

resolve-dereference_example : resolve (dereference (pointers 3 int) 2) ≡ ok (ptr int)
resolve-dereference_example = resolve-dereference 2 3 int refl

generics-subst_generic_example :
    generics (enum 7 (cons (array 3 pair) (cons (ptr (generic 1 none)) nil)))
    ≡ replace_in 0 (0 ∷ 1 ∷ []) (generics pair)
unfolding generics subst_generic
generics-subst_generic_example =
    generics-subst_generic pair 0 (array 3 pair)
      (enum 7 (cons (array 3 pair) (cons (ptr (generic 1 none)) nil))) (0 ∷ 1 ∷ []) refl refl

-- The checker accepts the sum of an integer and a float, and that of two characters.
mixed_typed : fold_ty 1 int float BinOp.add ≡ typed float
unfolding fold_ty math_ops
mixed_typed = refl

char_sum_typed : fold_ty 1 char char BinOp.add ≡ typed char
unfolding fold_ty char_ops
char_sum_typed = refl

-- A pointer behind a reference
deref_typed : fold_ty 3 (ref (ptr int)) int BinOp.mul ≡ typed int
unfolding fold_ty math_ops resolve resolve_from peel
deref_typed = refl

fold_ty-returned_example :
    returned (fold_ty 8 (ref (ref (ptr (ptr int)))) (ref (ptr (ptr int))) BinOp.add) ≡ true
fold_ty-returned_example =
    fold_ty-returned 8 (ref (ref (ptr (ptr int)))) (ref (ptr (ptr int))) BinOp.add (omega arith)

abbrev no_floats : Float64
no_floats = record {
  mul = λ a b. 0;
  div = λ a b. 0;
  rem = λ a b. 0;
  add = λ a b. 0;
  sub = λ a b. 0;
  lt = λ a b. false;
  le = λ a b. false;
  eq = λ a b. false;
}

fold_ty-evaluate_example : lit_to_type (Val.bool true) ≡ bool
unfolding fold_ty math_ops lit_to_type evaluate int_op lower lt
fold_ty-evaluate_example =
    fold_ty-evaluate no_floats 0 (Val.int (pos 2)) (Val.int (pos 3)) (Val.bool true) BinOp.lt bool
      refl refl
