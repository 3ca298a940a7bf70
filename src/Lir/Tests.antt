-- ===== src/Lir/Tests.antt =====
-- Runs of the constant folding, and its theorems at concrete inputs.
use enumc.Prelude.{ℕ, ◌≡◌, refl, false, none, some}
use enumc.Lir.Isize.{pos, negsuc, ◌+ℤ◌, ◌*ℤ◌, div, rem, mul, add, sub, shl, shr, complement}
use enumc.Lir.Op.{UnOp, BinOp}
use enumc.Lir.Val.{Float64, float, int, char, int_op, char_op, evaluate}
use enumc.Lir.Expr.{
  Expr, parens, call, urnary, binary, value, nil, cons, unary, unwrap, fold_unary, eval_binop,
  fold_binary, const_fold,
}
use enumc.Lir.Stable.{const_fold-const_fold}
use enumc.Lir.Meaning.{meaning, const_fold-meaning, meaning-const_fold}

-- An arithmetic that is not used.
abbrev no_floats : Float64
no_floats = record {
  mul = λ a b. 0;
  div = λ a b. 0;
  rem = λ a b. 0;
  add = λ a b. 0;
  sub = λ a b. 0;
  lt = λ a b. false;
  le = λ a b. false;
  eq = λ a b. false;
}

abbrev number : ℕ → Expr ℕ
number n = value (int (pos n))

-- `5 + (9 * (9 - 3))`
abbrev sum : Expr ℕ
sum =
    binary BinOp.add (number 5)
      (parens (binary BinOp.mul (number 9) (parens (binary BinOp.sub (number 9) (number 3) 0)) 0)) 0

div_rounds : div (negsuc 6) (pos 2) ≡ some (negsuc 2)
unfolding div
div_rounds = refl

rem_sign : rem (negsuc 6) (pos 2) ≡ some (negsuc 0)
unfolding rem div
rem_sign = refl

div_overflow : div (negsuc 9223372036854775807) (negsuc 0) ≡ none
unfolding div
div_overflow = refl

shr_sign : shr (negsuc 6) (pos 1) ≡ some (negsuc 3)
unfolding shr
shr_sign = refl

shl_sign : shl (pos 1) (pos 63) ≡ some (negsuc 9223372036854775807)
unfolding shl
shl_sign = refl

sum_folds : const_fold no_floats sum ≡ some (number 59)
unfolding const_fold fold_binary eval_binop unwrap evaluate int_op add sub mul ◌+ℤ◌ ◌*ℤ◌
sum_folds = refl

-- The operand of a unary operator is not folded.
not_operand :
    const_fold no_floats (urnary UnOp.not (parens (number 5)) 0)
    ≡ some (urnary UnOp.not (parens (number 5)) 0)
unfolding const_fold fold_unary
not_operand = refl

-- A unary operator on a constant of another type is dropped.
not_dropped :
    const_fold {A = ℕ} no_floats (urnary UnOp.not (value (char 97)) 0) ≡ some (value (char 97))
unfolding const_fold fold_unary unary
not_dropped = refl

-- An integer and a float meet the panic.
mixed_panics : evaluate no_floats (int (pos 1)) BinOp.add (float 0) ≡ none
unfolding evaluate
mixed_panics = refl

-- So does the sum of two characters.
char_sum_panics : evaluate no_floats (char 97) BinOp.add (char 98) ≡ none
unfolding evaluate char_op
char_sum_panics = refl

const_fold-meaning_example : const_fold no_floats sum ≡ some (number 59)
unfolding meaning evaluate int_op add sub mul ◌+ℤ◌ ◌*ℤ◌
const_fold-meaning_example = const_fold-meaning no_floats sum refl

-- `~5 + 2`
abbrev complemented : Expr ℕ
complemented = binary BinOp.add (urnary UnOp.ones_comp (number 5) 0) (number 2) 0

meaning-const_fold_example :
    (r : Expr ℕ) × (const_fold no_floats complemented ≡ some r)
    × (meaning no_floats r ≡ some (int (negsuc 3)))
unfolding meaning evaluate int_op add ◌+ℤ◌ complement
meaning-const_fold_example = meaning-const_fold no_floats complemented (int (negsuc 3)) refl

const_fold-const_fold_example :
    const_fold no_floats (call 0 (cons (number 5) nil)) ≡ some (call 0 (cons (number 5) nil))
unfolding const_fold fold_binary eval_binop evaluate int_op add ◌+ℤ◌
const_fold-const_fold_example =
    const_fold-const_fold no_floats (call 0 (cons (binary BinOp.add (number 2) (number 3) 0) nil))
      (call 0 (cons (number 5) nil)) refl
