-- ===== src/Lir/Stable.antt =====
-- A second `const_fold` finds nothing to do.
use enumc.Prelude.{◌≡◌, refl, ap, ap₂, subst, sym, ◌∙◌, Option, none, some}
use enumc.Lir.Op.{UnOp, BinOp}
use enumc.Lir.Val.{Float64, Val, evaluate}
use enumc.Lir.Expr.{
  Expr, Exprs, ident, builtin, deref, addr_of, parens, array, call, trait_meth, struct_init,
  enum_init, array_init, urnary, binary, field_access, value, nil, cons, map_expr, map_exprs,
  cons_exprs, unwrap, fold_unary, as_value, eval_binop, fold_binary, const_fold, const_fold_all,
}

module _ {A : Type 0} (f : Float64) where
  -- What the folding returned is folded.
  abbrev Folded : Option (Expr A) → Type 0
  Folded none = Unit {0}
  Folded (some ex) = const_fold f ex ≡ some ex

  abbrev AllFolded : Option (Exprs A) → Type 0
  AllFolded none = Unit {0}
  AllFolded (some exs) = const_fold_all f exs ≡ some exs

  Folded-map_expr :
      (g : Expr A → Expr A) (o : Option (Expr A))
      → ((ex : Expr A) → const_fold f (g ex) ≡ map_expr g (const_fold f ex))
      → Folded o
      → Folded (map_expr g o)
  Folded-map_expr g none inward h = tt
  Folded-map_expr g (some ex) inward h = inward ex ∙ ap (map_expr g) h

  Folded-map_exprs :
      (g : Exprs A → Expr A) (o : Option (Exprs A))
      → ((exs : Exprs A) → const_fold f (g exs) ≡ map_exprs g (const_fold_all f exs))
      → AllFolded o
      → Folded (map_exprs g o)
  Folded-map_exprs g none inward h = tt
  Folded-map_exprs g (some exs) inward h = inward exs ∙ ap (map_exprs g) h

  AllFolded-cons :
      (o : Option (Expr A)) (p : Option (Exprs A))
      → Folded o
      → AllFolded p
      → AllFolded (cons_exprs o p)
  unfolding const_fold
  AllFolded-cons none p h k = tt
  AllFolded-cons (some ex) none h k = tt
  AllFolded-cons (some ex) (some exs) h k = ap₂ cons_exprs h k

  parens-unwrap :
      (ex : Expr A) → const_fold f ex ≡ some ex → const_fold f (unwrap ex) ≡ some (unwrap ex)
  unfolding const_fold unwrap
  parens-unwrap (value v) h = refl
  parens-unwrap ex h = ap (map_expr unwrap) h

  Folded-unwrap : (o : Option (Expr A)) → Folded o → Folded (map_expr unwrap o)
  Folded-unwrap none h = tt
  Folded-unwrap (some ex) h = parens-unwrap ex h

  Folded-fold_unary : (op : UnOp) (ex : Expr A) (ty : A) → Folded (some (fold_unary op ex ty))
  unfolding const_fold fold_unary
  Folded-fold_unary op (value v) ty = refl
  Folded-fold_unary op _ ty = refl

  Folded-as_value : (o : Option Val) (p : Option (Expr A)) → p ≡ as_value o → Folded p
  unfolding const_fold
  Folded-as_value none p q = subst Folded (sym q) tt
  Folded-as_value (some v) p q = subst Folded (sym q) refl

  Folded-eval_binop :
      (op : BinOp) (lhs rhs : Expr A) (ty : A)
      → const_fold f lhs ≡ some lhs
      → const_fold f rhs ≡ some rhs
      → Folded (eval_binop f op lhs rhs ty)
  unfolding const_fold eval_binop fold_binary
  Folded-eval_binop op (value a) (value b) ty l r = Folded-as_value (evaluate f a op b) _ refl
  Folded-eval_binop op lhs rhs ty l r = ap₂ (λ a b. fold_binary f op a b ty) l r

  Folded-fold_binary :
      (op : BinOp) (o p : Option (Expr A)) (ty : A)
      → Folded o
      → Folded p
      → Folded (fold_binary f op o p ty)
  unfolding fold_binary
  Folded-fold_binary op none p ty l r = tt
  Folded-fold_binary op (some lhs) none ty l r = tt
  Folded-fold_binary op (some lhs) (some rhs) ty l r = Folded-eval_binop op lhs rhs ty l r

  mutual
    unfolding const_fold

    fold-Folded : (ex : Expr A) → Folded (const_fold f ex)
    fold-Folded (ident x) = refl
    fold-Folded (builtin x) = refl
    fold-Folded (value v) = refl
    fold-Folded (field_access lhs rhs x) = refl
    fold-Folded (addr_of ex) =
        Folded-map_expr addr_of (const_fold f ex) (λ e. refl) (fold-Folded ex)
    fold-Folded (deref n ex ty) =
        Folded-map_expr (λ e. deref n e ty) (const_fold f ex) (λ e. refl) (fold-Folded ex)
    fold-Folded (parens ex) = Folded-unwrap (const_fold f ex) (fold-Folded ex)
    fold-Folded (urnary op ex ty) = Folded-fold_unary op ex ty
    fold-Folded (binary op lhs rhs ty) =
        Folded-fold_binary op (const_fold f lhs) (const_fold f rhs) ty (fold-Folded lhs)
          (fold-Folded rhs)
    fold-Folded (array x exs) = Folded-map_exprs (array x) _ (λ e. refl) (fold-AllFolded exs)
    fold-Folded (call x exs) = Folded-map_exprs (call x) _ (λ e. refl) (fold-AllFolded exs)
    fold-Folded (trait_meth x exs) =
        Folded-map_exprs (trait_meth x) _ (λ e. refl) (fold-AllFolded exs)
    fold-Folded (struct_init x exs) =
        Folded-map_exprs (struct_init x) _ (λ e. refl) (fold-AllFolded exs)
    fold-Folded (enum_init x exs) =
        Folded-map_exprs (enum_init x) _ (λ e. refl) (fold-AllFolded exs)
    fold-Folded (array_init x exs) =
        Folded-map_exprs (array_init x) _ (λ e. refl) (fold-AllFolded exs)

    fold-AllFolded : (exs : Exprs A) → AllFolded (const_fold_all f exs)
    fold-AllFolded nil = refl
    fold-AllFolded (cons ex exs) =
        AllFolded-cons (const_fold f ex) (const_fold_all f exs) (fold-Folded ex)
          (fold-AllFolded exs)

  -- Folding what `const_fold` returned changes nothing, and does not panic.
  pub const_fold-const_fold : (ex r : Expr A) → const_fold f ex ≡ some r → const_fold f r ≡ some r
  const_fold-const_fold ex r done = subst Folded done (fold-Folded ex)
