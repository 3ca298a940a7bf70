-- ===== src/Lir/Val.antt =====
-- src/lir/const_fold.rs: `Val::evaluate`; and the constants of src/lir/lower.rs.
use enumc.Prelude.{
  ℕ, ◌*◌, ◌/◌, ◌%◌, ◌^◌, Bool, true, false, not, ◌&&◌, ◌||◌, List, [], ◌∷◌, Option, none, some, ltb,
  ◌==◌, if◌then◌else◌,
}
use enumc.Lir.Op.{BinOp}
use enumc.Lir.Isize.{ℤ, pos, negsuc}
use enumc.Lir.Isize

-- `f64` stands for its bits, as `to_bits` gives them. Its arithmetic and order are parameters.
pub record Float64 : Type 0 where
  pub mul : ℕ → ℕ → ℕ
  pub div : ℕ → ℕ → ℕ
  pub rem : ℕ → ℕ → ℕ
  pub add : ℕ → ℕ → ℕ
  pub sub : ℕ → ℕ → ℕ
  pub lt : ℕ → ℕ → Bool
  pub le : ℕ → ℕ → Bool
  pub eq : ℕ → ℕ → Bool

-- An `Ident` is the text of its name.
pub data Val : Type 0 where
  float : ℕ → Val
  int : ℤ → Val
  char : ℕ → Val
  bool : Bool → Val
  str : List ℕ → Val

abbrev pub eqb_ℤ : ℤ → ℤ → Bool
eqb_ℤ (pos m) (pos n) = m == n
eqb_ℤ (negsuc m) (negsuc n) = m == n
eqb_ℤ _ _ = false

-- The order of texts, by their first difference.
abbrev pub lt_str : List ℕ → List ℕ → Bool
lt_str a [] = false
lt_str [] (y ∷ b) = true
lt_str (x ∷ a) (y ∷ b) = ltb x y || (x == y && lt_str a b)

abbrev pub eqb_str : List ℕ → List ℕ → Bool
eqb_str [] [] = true
eqb_str (x ∷ a) (y ∷ b) = x == y && eqb_str a b
eqb_str _ _ = false

-- `Val::Int` of a result, if the operation does not panic
abbrev pub as_int : Option ℤ → Option Val
as_int none = none
as_int (some z) = some (int z)

-- `none` is a panic: `unreachable!`, or an overflow.
unfoldable pub int_op : ℤ → ℤ → BinOp → Option Val
int_op a b BinOp.mul = as_int (Isize.mul a b)
int_op a b BinOp.div = as_int (Isize.div a b)
int_op a b BinOp.rem = as_int (Isize.rem a b)
int_op a b BinOp.add = as_int (Isize.add a b)
int_op a b BinOp.sub = as_int (Isize.sub a b)
int_op a b BinOp.left_shift = as_int (Isize.shl a b)
int_op a b BinOp.right_shift = as_int (Isize.shr a b)
int_op a b BinOp.lt = some (bool (Isize.lt a b))
int_op a b BinOp.le = some (bool (not (Isize.lt b a)))
int_op a b BinOp.ge = some (bool (not (Isize.lt a b)))
int_op a b BinOp.gt = some (bool (Isize.lt b a))
int_op a b BinOp.eq = some (bool (eqb_ℤ a b))
int_op a b BinOp.ne = some (bool (not (eqb_ℤ a b)))
int_op a b BinOp.bit_and = some (int (Isize.and a b))
int_op a b BinOp.bit_xor = some (int (Isize.xor a b))
int_op a b BinOp.bit_or = some (int (Isize.or a b))
int_op a b BinOp.and = some (bool (not (eqb_ℤ a (pos 0)) && not (eqb_ℤ b (pos 0))))
int_op a b BinOp.or = some (bool (not (eqb_ℤ a (pos 0)) || not (eqb_ℤ b (pos 0))))
int_op a b BinOp.add_assign = none
int_op a b BinOp.sub_assign = none

unfoldable pub char_op : ℕ → ℕ → BinOp → Option Val
char_op a b BinOp.lt = some (bool (ltb a b))
char_op a b BinOp.le = some (bool (not (ltb b a)))
char_op a b BinOp.ge = some (bool (not (ltb a b)))
char_op a b BinOp.gt = some (bool (ltb b a))
char_op a b BinOp.eq = some (bool (a == b))
char_op a b BinOp.ne = some (bool (not (a == b)))
char_op a b _ = none

abbrev pub same : Bool → Bool → Bool
same true b = b
same false b = not b

unfoldable pub bool_op : Bool → Bool → BinOp → Option Val
bool_op a b BinOp.lt = some (bool (not a && b))
bool_op a b BinOp.le = some (bool (not a || b))
bool_op a b BinOp.ge = some (bool (a || not b))
bool_op a b BinOp.gt = some (bool (a && not b))
bool_op a b BinOp.eq = some (bool (same a b))
bool_op a b BinOp.ne = some (bool (not (same a b)))
bool_op a b BinOp.bit_and = some (bool (a && b))
bool_op a b BinOp.bit_xor = some (bool (not (same a b)))
bool_op a b BinOp.bit_or = some (bool (a || b))
bool_op a b BinOp.and = some (bool (a && b))
bool_op a b BinOp.or = some (bool (a || b))
bool_op a b _ = none

unfoldable pub str_op : List ℕ → List ℕ → BinOp → Option Val
str_op a b BinOp.lt = some (bool (lt_str a b))
str_op a b BinOp.le = some (bool (not (lt_str b a)))
str_op a b BinOp.ge = some (bool (not (lt_str a b)))
str_op a b BinOp.gt = some (bool (lt_str b a))
str_op a b BinOp.eq = some (bool (eqb_str a b))
str_op a b BinOp.ne = some (bool (not (eqb_str a b)))
str_op a b _ = none

module _ (f : Float64) where
  -- The shifts are those of `u64`, which panic at 64 bits.
  unfoldable pub float_op : ℕ → ℕ → BinOp → Option Val
  float_op a b BinOp.mul = some (float (f.mul a b))
  float_op a b BinOp.div = some (float (f.div a b))
  float_op a b BinOp.rem = some (float (f.rem a b))
  float_op a b BinOp.add = some (float (f.add a b))
  float_op a b BinOp.sub = some (float (f.sub a b))
  float_op a b BinOp.left_shift = if ltb b 64 then some (float (a * 2 ^ b % 2 ^ 64)) else none
  float_op a b BinOp.right_shift = if ltb b 64 then some (float (a / 2 ^ b)) else none
  float_op a b BinOp.lt = some (bool (f.lt a b))
  float_op a b BinOp.le = some (bool (f.le a b))
  float_op a b BinOp.ge = some (bool (f.le b a))
  float_op a b BinOp.gt = some (bool (f.lt b a))
  float_op a b BinOp.eq = some (bool (f.eq a b))
  float_op a b BinOp.ne = some (bool (not (f.eq a b)))
  float_op a b BinOp.and = some (bool (not (a == 0) && not (b == 0)))
  float_op a b BinOp.or = some (bool (not (a == 0) || not (b == 0)))
  float_op a b _ = none

  -- Operands of two types meet a `todo!`.
  unfoldable pub evaluate : Val → BinOp → Val → Option Val
  evaluate (float a) op (float b) = float_op a b op
  evaluate (int a) op (int b) = int_op a b op
  evaluate (char a) op (char b) = char_op a b op
  evaluate (bool a) op (bool b) = bool_op a b op
  evaluate (str a) op (str b) = str_op a b op
  evaluate _ op _ = none
