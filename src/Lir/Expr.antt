-- ===== src/Lir/Expr.antt =====
-- src/lir/lower.rs: `Expr`; and src/lir/const_fold.rs: `Expr::const_fold`.
use enumc.Prelude.{ℕ, ◌-◌, ◌^◌, Option, none, some}
use mathlib.Core.Bool
use enumc.Lir.Isize.{pos, complement}
use enumc.Lir.Op.{UnOp, BinOp}
use enumc.Lir.Val.{Float64, Val, float, int, bool, eqb_ℤ, evaluate}

-- `A` is what the folding does not read: types, paths, definitions and the names of fields.
module _ (A : Type 0) where
  mutual
    pub data Expr : Type 0 where
      ident builtin : A → Expr
      deref : ℕ → Expr → A → Expr
      addr_of parens : Expr → Expr
      array call trait_meth struct_init enum_init array_init : A → Exprs → Expr
      urnary : UnOp → Expr → A → Expr
      binary : BinOp → Expr → Expr → A → Expr
      field_access : Expr → Expr → A → Expr
      value : Val → Expr

    pub data Exprs : Type 0 where
      nil : Exprs
      cons : Expr → Exprs → Exprs

-- The match on the operator of `Expr::Urnary` and its constant.
unfoldable pub unary : UnOp → Val → Val
unary UnOp.not (int i) = bool (eqb_ℤ i (pos 0))
unary UnOp.not (bool b) = bool (Bool.not b)
unary UnOp.not val = val
unary UnOp.ones_comp (int i) = int (complement i)
unary UnOp.ones_comp (float f) = float (2 ^ 64 - 1 - f)
unary UnOp.ones_comp (bool b) = bool (Bool.not b)
unary UnOp.ones_comp val = val

module _ {A : Type 0} where
  abbrev pub map_expr : (Expr A → Expr A) → Option (Expr A) → Option (Expr A)
  map_expr f none = none
  map_expr f (some ex) = some (f ex)

  abbrev pub map_exprs : (Exprs A → Expr A) → Option (Exprs A) → Option (Expr A)
  map_exprs f none = none
  map_exprs f (some exs) = some (f exs)

  abbrev pub cons_exprs : Option (Expr A) → Option (Exprs A) → Option (Exprs A)
  cons_exprs none exs = none
  cons_exprs (some ex) none = none
  cons_exprs (some ex) (some exs) = some (cons ex exs)

  -- The parentheses around a constant are dropped.
  unfoldable pub unwrap : Expr A → Expr A
  unwrap (value val) = value val
  unwrap ex = parens ex

  unfoldable pub fold_unary : UnOp → Expr A → A → Expr A
  fold_unary op (value val) ty = value (unary op val)
  fold_unary op ex ty = urnary op ex ty

  abbrev pub as_value : Option Val → Option (Expr A)
  as_value none = none
  as_value (some val) = some (value val)

  -- `eval_binop`, and the expression if it returns `None`. The result `none` is a panic.
  unfoldable pub eval_binop : Float64 → BinOp → Expr A → Expr A → A → Option (Expr A)
  eval_binop f op (value l) (value r) ty = as_value (evaluate f l op r)
  eval_binop f op lhs rhs ty = some (binary op lhs rhs ty)

  -- The arm of `Expr::Binary`, for what the folding of its operands gives.
  unfoldable pub fold_binary :
      Float64 → BinOp → Option (Expr A) → Option (Expr A) → A → Option (Expr A)
  fold_binary f op none rhs ty = none
  fold_binary f op (some lhs) none ty = none
  fold_binary f op (some lhs) (some rhs) ty = eval_binop f op lhs rhs ty

  unfoldable mutual
    pub const_fold : Float64 → Expr A → Option (Expr A)
    const_fold f (ident x) = some (ident x)
    const_fold f (addr_of ex) = map_expr addr_of (const_fold f ex)
    const_fold f (deref indir ex ty) = map_expr (λ e. deref indir e ty) (const_fold f ex)
    const_fold f (parens ex) = map_expr unwrap (const_fold f ex)
    const_fold f (urnary op ex ty) = some (fold_unary op ex ty)
    const_fold f (binary op lhs rhs ty) = fold_binary f op (const_fold f lhs) (const_fold f rhs) ty
    const_fold f (array x exs) = map_exprs (array x) (const_fold_all f exs)
    const_fold f (call x exs) = map_exprs (call x) (const_fold_all f exs)
    const_fold f (trait_meth x exs) = map_exprs (trait_meth x) (const_fold_all f exs)
    const_fold f (struct_init x exs) = map_exprs (struct_init x) (const_fold_all f exs)
    const_fold f (enum_init x exs) = map_exprs (enum_init x) (const_fold_all f exs)
    const_fold f (array_init x exs) = map_exprs (array_init x) (const_fold_all f exs)
    const_fold f (value val) = some (value val)
    const_fold f (builtin x) = some (builtin x)
    const_fold f (field_access lhs rhs x) = some (field_access lhs rhs x)

    pub const_fold_all : Float64 → Exprs A → Option (Exprs A)
    const_fold_all f nil = some nil
    const_fold_all f (cons ex exs) = cons_exprs (const_fold f ex) (const_fold_all f exs)
