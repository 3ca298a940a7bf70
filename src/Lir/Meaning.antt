-- ===== src/Lir/Meaning.antt =====
-- The meaning of constant expressions, and that `const_fold` keeps it.
use enumc.Prelude.{
  ◌-◌, ◌^◌, ◌≡◌, refl, sym, subst, ap, ap₂, ◌∙◌, Bool, true, false, ◌&&◌, arith, Option, none, some,
}
use mathlib.Core.Bool
use enumc.Lir.Isize.{pos, complement}
use enumc.Lir.Op.{UnOp, BinOp}
use enumc.Lir.Val.{Float64, Val, float, int, bool, eqb_ℤ, evaluate}
use enumc.Lir.Expr.{
  Expr, parens, urnary, binary, value, unary, map_expr, unwrap, fold_unary, as_value, eval_binop,
  fold_binary, const_fold,
}

-- What the operators `!` and `~` mean: nothing on the other types.
abbrev pub meaning_unary : UnOp → Val → Option Val
meaning_unary UnOp.not (int i) = some (bool (eqb_ℤ i (pos 0)))
meaning_unary UnOp.not (bool b) = some (bool (Bool.not b))
meaning_unary UnOp.ones_comp (int i) = some (int (complement i))
meaning_unary UnOp.ones_comp (float f) = some (float (2 ^ 64 - 1 - f))
meaning_unary UnOp.ones_comp (bool b) = some (bool (Bool.not b))
meaning_unary _ _ = none

abbrev pub apply : (Val → Option Val) → Option Val → Option Val
apply f none = none
apply f (some v) = f v

abbrev pub apply₂ : (Val → Val → Option Val) → Option Val → Option Val → Option Val
apply₂ f none b = none
apply₂ f (some a) none = none
apply₂ f (some a) (some b) = f a b

meaning-unary : (op : UnOp) (a v : Val) → meaning_unary op a ≡ some v → some (unary op a) ≡ some v
unfolding unary
meaning-unary UnOp.not (int i) v e = e
meaning-unary UnOp.not (bool b) v e = e
meaning-unary UnOp.ones_comp (int i) v e = e
meaning-unary UnOp.ones_comp (float i) v e = e
meaning-unary UnOp.ones_comp (bool b) v e = e
meaning-unary _ _ v e = cc

apply₂-some :
    (g : Val → Val → Option Val) (o p : Option Val) (v : Val)
    → apply₂ g o p ≡ some v
    → (a : Val) × (b : Val) × (o ≡ some a) × (p ≡ some b) × (g a b ≡ some v)
apply₂-some g none p v e = cc
apply₂-some g (some a) none v e = cc
apply₂-some g (some a) (some b) v e = (a, b, refl, refl, e)

module _ {A : Type 0} (f : Float64) where
  -- The value of an expression that is built from constants.
  unfoldable pub meaning : Expr A → Option Val
  meaning (value v) = some v
  meaning (parens ex) = meaning ex
  meaning (urnary op ex ty) = apply (meaning_unary op) (meaning ex)
  meaning (binary op lhs rhs ty) =
      apply₂ (λ (a b : Val). evaluate f a op b) (meaning lhs) (meaning rhs)
  meaning _ = none

  -- The expression has no operators but the binary ones.
  abbrev pub arithmetic : Expr A → Bool
  arithmetic (value v) = true
  arithmetic (parens ex) = arithmetic ex
  arithmetic (binary op lhs rhs ty) = arithmetic lhs && arithmetic rhs
  arithmetic _ = false

  unwrap-as_value : (v : Option Val) → map_expr unwrap (as_value {A = A} v) ≡ as_value v
  unfolding unwrap
  unwrap-as_value none = refl
  unwrap-as_value (some v) = refl

  fold_binary-as_value :
      (op : BinOp) (a b : Option Val) (ty : A)
      → fold_binary f op (as_value a) (as_value b) ty
        ≡ as_value (apply₂ (λ (x y : Val). evaluate f x op y) a b)
  unfolding fold_binary eval_binop
  fold_binary-as_value op none b ty = refl
  fold_binary-as_value op (some a) none ty = refl
  fold_binary-as_value op (some a) (some b) ty = refl

  -- Of constants, parentheses and binary operators `const_fold` makes their value, and it panics
  -- exactly if they have none.
  pub const_fold-meaning :
      (ex : Expr A) → arithmetic ex ≡ true → const_fold f ex ≡ as_value (meaning ex)
  unfolding const_fold meaning
  const_fold-meaning (value v) h = refl
  const_fold-meaning (parens ex) h =
      ap (map_expr unwrap) (const_fold-meaning ex h) ∙ unwrap-as_value (meaning ex)
  const_fold-meaning (binary op lhs rhs ty) h =
      let left : arithmetic lhs ≡ true = ground arith in
      let right : arithmetic rhs ≡ true = ground arith in
      ap₂ (λ a b. fold_binary f op a b ty) (const_fold-meaning lhs left)
        (const_fold-meaning rhs right)
      ∙ fold_binary-as_value op (meaning lhs) (meaning rhs) ty
  const_fold-meaning _ h = cc

  -- The folding returned an expression with the value `v`.
  abbrev Means : Val → Option (Expr A) → Type 0
  Means v none = ⊥
  Means v (some ex) = meaning ex ≡ some v

  Means-unwrap : (v : Val) (o : Option (Expr A)) → Means v o → Means v (map_expr unwrap o)
  unfolding unwrap meaning
  Means-unwrap v none m = m
  Means-unwrap v (some (value w)) m = m
  Means-unwrap v (some _) m = m

  Means-as_value :
      (v : Val) (o : Option Val) (p : Option (Expr A)) → p ≡ as_value o → o ≡ some v → Means v p
  unfolding meaning
  Means-as_value v none p q e = cc
  Means-as_value v (some w) p q e = subst (Means v) (sym q) e

  Means-eval_binop :
      (op : BinOp) (lhs rhs : Expr A) (a b v : Val) (ty : A)
      → meaning lhs ≡ some a
      → meaning rhs ≡ some b
      → evaluate f a op b ≡ some v
      → Means v (eval_binop f op lhs rhs ty)
  unfolding eval_binop meaning
  Means-eval_binop op (value x) (value y) a b v ty l r e =
      Means-as_value v (evaluate f x op y) _ refl (
        ap (apply₂ (λ (a b : Val). evaluate f a op b) (some x)) r
        ∙ ap (λ (o : Option Val). apply₂ (λ (a b : Val). evaluate f a op b) o (some b)) l
        ∙ e)
  Means-eval_binop op lhs rhs a b v ty l r e =
      ap₂ (apply₂ (λ (a b : Val). evaluate f a op b)) l r ∙ e

  Means-fold_binary :
      (op : BinOp) (o p : Option (Expr A)) (a b v : Val) (ty : A)
      → Means a o
      → Means b p
      → evaluate f a op b ≡ some v
      → Means v (fold_binary f op o p ty)
  unfolding fold_binary
  Means-fold_binary op none p a b v ty l r e = absurd l
  Means-fold_binary op (some lhs) none a b v ty l r e = absurd r
  Means-fold_binary op (some lhs) (some rhs) a b v ty l r e =
      Means-eval_binop op lhs rhs a b v ty l r e

  Means-fold_unary :
      (op : UnOp) (ex : Expr A) (ty : A) (v : Val)
      → meaning (urnary op ex ty) ≡ some v
      → meaning (fold_unary op ex ty) ≡ some v
  unfolding fold_unary meaning
  Means-fold_unary op (value a) ty v e = meaning-unary op a v e
  Means-fold_unary op _ ty v e = e

  fold-Means : (ex : Expr A) (v : Val) → meaning ex ≡ some v → Means v (const_fold f ex)
  unfolding const_fold meaning
  fold-Means (value w) v e = e
  fold-Means (parens ex) v e = Means-unwrap v (const_fold f ex) (fold-Means ex v e)
  fold-Means (urnary op ex ty) v e = Means-fold_unary op ex ty v e
  fold-Means (binary op lhs rhs ty) v e =
      let (a, b, l, r, g) =
        apply₂-some (λ (a b : Val). evaluate f a op b) (meaning lhs) (meaning rhs) v e in
      Means-fold_binary op (const_fold f lhs) (const_fold f rhs) a b v ty (fold-Means lhs a l)
        (fold-Means rhs b r) g
  fold-Means _ v e = cc

  Means-some :
      (v : Val) (o : Option (Expr A))
      → Means v o
      → (ex : Expr A) × (o ≡ some ex) × (meaning ex ≡ some v)
  Means-some v none m = absurd m
  Means-some v (some ex) m = (ex, refl, m)

  -- If an expression has a value, `const_fold` returns an expression with the same value.
  pub meaning-const_fold :
      (ex : Expr A) (v : Val)
      → meaning ex ≡ some v
      → (r : Expr A) × (const_fold f ex ≡ some r) × (meaning r ≡ some v)
  meaning-const_fold ex v e = Means-some v (const_fold f ex) (fold-Means ex v e)
