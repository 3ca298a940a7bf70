-- ===== src/Lir/Lower/Settles.antt =====
-- src/lir/lower.rs: a recursion on fuel whose result settles.
use enumc.Prelude.{ℕ, zero, suc, ◌+◌, ◌≤◌, ◌≡◌, refl, ap, ap₂, arith}
use enumc.Types.Ty
use enumc.Lir.Layout.{Types, nil, cons, Variants, none_left, variant}
use enumc.Lir.Layout
use enumc.Lir.Lower.{Lowered, lowered, map_lowered, both_lowered, Decls, lower_ty, lower}

-- On this fuel and on more, the result is the same.
unfoldable pub Settles : {A : Type 0} → (ℕ → Lowered A) → Type 0
Settles {A} run = (n : ℕ) × (a : A) × ((fuel : ℕ) → n ≤ fuel → run fuel ≡ lowered a)

pub Settles-map :
    {A B : Type 0} (f : A → B) (run : ℕ → Lowered A)
    → Settles run
    → Settles (λ fuel. map_lowered f (run fuel))
unfolding Settles
Settles-map f run (n, a, e) = (n, f a, λ fuel le. ap (map_lowered f) (e fuel le))

pub Settles-both :
    {A B C : Type 0} (f : A → B → C) (run : ℕ → Lowered A) (other : ℕ → Lowered B)
    → Settles run
    → Settles other
    → Settles (λ fuel. both_lowered f (run fuel) (other fuel))
unfolding Settles
Settles-both f run other (n, a, e) (m, b, g) =
    (n + m, f a b, λ fuel le. ap₂ (both_lowered f) (e fuel (omega arith)) (g fuel (omega arith)))

pub Settles-result : {A : Type 0} (a : A) → Settles (λ fuel. lowered a)
unfolding Settles
Settles-result a = (0, a, λ fuel le. refl)

module _ (decls : Decls) where
  lower-suc :
      (ty : Ty.Ty) (n : ℕ) (a : Layout.Ty)
      → ((fuel : ℕ) → n ≤ fuel → lower_ty (lower fuel decls) decls ty ≡ lowered a)
      → (fuel : ℕ) → suc n ≤ fuel
      → lower fuel decls ty ≡ lowered a
  unfolding lower
  lower-suc ty n a e zero le = absurd (omega arith)
  lower-suc ty n a e (suc fuel) le = e fuel (omega arith)

  -- One more level of the recursion
  pub Settles-lower :
      (ty : Ty.Ty)
      → Settles (λ fuel. lower_ty (lower fuel decls) decls ty)
      → Settles (λ fuel. lower fuel decls ty)
  unfolding Settles
  Settles-lower ty (n, a, e) = (suc n, a, lower-suc ty n a e)
