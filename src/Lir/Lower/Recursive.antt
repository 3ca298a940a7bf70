-- ===== src/Lir/Lower/Recursive.antt =====
-- src/lir/lower.rs: what becomes of a type that refers to itself.
use enumc.Prelude.{
  ℕ, zero, suc, ◌≤◌, ◌<◌, ◌≡◌, refl, sym, subst, ap, ◌∙◌, Bool, true, false, ◌||◌, ◌==◌, ==_iff,
  some, lookup, ℕ_discrete, arith, Bool-cases, inl, inr,
}
use enumc.Types.Ty
use enumc.Lir.Layout.{Types, cons}
use enumc.Lir.Layout
use enumc.Lir.Lower.{
  Lowered, lowered, panics, out_of_fuel, map_lowered, both_lowered, Decls, lower_all, lower_struct,
  lower_resolved, lower_ty, lower,
}

abbrev pub is_lowered : {A : Type 0} → Lowered A → Bool
is_lowered (lowered a) = true
is_lowered panics = false
is_lowered out_of_fuel = false

abbrev pub is_struct : ℕ → Ty.Ty → Bool
is_struct ident (Ty.struct i gen) = i == ident
is_struct ident _ = false

abbrev pub resolves_to : ℕ → Ty.Resolved → Bool
resolves_to ident (Ty.ok ty) = is_struct ident ty
resolves_to ident _ = false

-- The type is the struct, or a path to it.
abbrev pub names_struct : Decls → ℕ → Ty.Ty → Bool
names_struct decls ident (Ty.struct i gen) = i == ident
names_struct decls ident (Ty.path p) = resolves_to ident (decls.resolve_path p)
names_struct decls ident _ = false

-- One of the types is a pointer to the struct.
unfoldable pub points_to : Decls → ℕ → Ty.Types → Bool
points_to decls ident Ty.nil = false
points_to decls ident (Ty.cons (Ty.ptr ty) tys) =
    names_struct decls ident ty || points_to decls ident tys
points_to decls ident (Ty.cons _ tys) = points_to decls ident tys

or-right : (a b : Bool) → a ≡ false → (a || b) ≡ true → b ≡ true
or-right a b h k = ground arith

both-first :
    {A B C : Type 0} (f : A → B → C) (a : Lowered A) (b : Lowered B)
    → is_lowered a ≡ false
    → is_lowered (both_lowered f a b) ≡ false
both-first f (lowered a) b h = absurd (ground arith)
both-first f panics b h = refl
both-first f out_of_fuel b h = refl

both-second :
    {A B C : Type 0} (f : A → B → C) (a : Lowered A) (b : Lowered B)
    → is_lowered b ≡ false
    → is_lowered (both_lowered f a b) ≡ false
both-second f (lowered a) (lowered b) h = absurd (ground arith)
both-second f (lowered a) panics h = refl
both-second f (lowered a) out_of_fuel h = refl
both-second f panics b h = refl
both-second f out_of_fuel b h = refl

map-is_lowered :
    {A B : Type 0} (f : A → B) (a : Lowered A) → is_lowered (map_lowered f a) ≡ is_lowered a
map-is_lowered f (lowered a) = refl
map-is_lowered f panics = refl
map-is_lowered f out_of_fuel = refl

lower_all-points_to :
    (rec : Ty.Ty → Lowered Layout.Ty) (decls : Decls) (ident : ℕ) (tys : Ty.Types)
    → ((ty : Ty.Ty) → names_struct decls ident ty ≡ true → is_lowered (rec (Ty.ptr ty)) ≡ false)
    → points_to decls ident tys ≡ true
    → is_lowered (lower_all rec tys) ≡ false
unfolding lower_all points_to
lower_all-points_to rec decls ident Ty.nil never h = absurd (ground arith)
lower_all-points_to rec decls ident (Ty.cons (Ty.ptr ty) tys) never h =
    elim (Bool-cases (names_struct decls ident ty)) [
      | inl here ↦ both-first cons (rec (Ty.ptr ty)) (lower_all rec tys) (never ty here)
      | inr there ↦ both-second cons (rec (Ty.ptr ty)) (lower_all rec tys) (
          lower_all-points_to rec decls ident tys never
            (or-right (names_struct decls ident ty) (points_to decls ident tys) there h))
    ]
lower_all-points_to rec decls ident (Ty.cons ty tys) never h =
    both-second cons (rec ty) (lower_all rec tys) (lower_all-points_to rec decls ident tys never h)

module _ (decls : Decls) (ident : ℕ) where
  -- Lowering the struct gives no result on this fuel.
  unfoldable Never : ℕ → Type 0
  Never fuel = (gen : Ty.Types) → is_lowered (lower fuel decls (Ty.struct ident gen)) ≡ false

  struct-Never :
      (fuel : ℕ) (ty : Ty.Ty)
      → is_struct ident ty ≡ true
      → Never fuel
      → is_lowered (lower fuel decls ty) ≡ false
  unfolding Never
  struct-Never fuel (Ty.struct i gen) h never =
      subst (λ k. is_lowered (lower fuel decls (Ty.struct k gen)) ≡ false)
        (sym ((==_iff i ident).0 h)) (never gen)
  struct-Never fuel ty h never = absurd (ground arith)

  resolved-Never :
      (fuel : ℕ) (r : Ty.Resolved)
      → resolves_to ident r ≡ true
      → Never fuel
      → is_lowered (lower_resolved (lower fuel decls) r) ≡ false
  resolved-Never fuel (Ty.ok ty) h never = struct-Never fuel ty h never
  resolved-Never fuel Ty.fails h never = refl
  resolved-Never fuel Ty.panic h never = refl

  pointer-Never :
      (n fuel : ℕ) (ty : Ty.Ty)
      → fuel ≤ n
      → ((m : ℕ) → m < n → Never m)
      → names_struct decls ident ty ≡ true
      → is_lowered (lower fuel decls (Ty.ptr ty)) ≡ false
  unfolding lower lower_ty
  pointer-Never n zero ty le never h = refl
  pointer-Never n (suc fuel) (Ty.struct i gen) le never h =
      map-is_lowered Layout.ptr (lower fuel decls (Ty.struct i gen))
      ∙ struct-Never fuel (Ty.struct i gen) h (never fuel (omega arith))
  pointer-Never n (suc zero) (Ty.path p) le never h = refl
  pointer-Never n (suc (suc fuel)) (Ty.path p) le never h =
      map-is_lowered Layout.ptr (lower (suc fuel) decls (Ty.path p))
      ∙ resolved-Never fuel (decls.resolve_path p) h (never fuel (omega arith))
  pointer-Never n (suc fuel) ty le never h = absurd (ground arith)

  bounded-Never :
      (n : ℕ) (fields : Ty.Types)
      → lookup ℕ_discrete ident decls.name_struct ≡ some fields
      → points_to decls ident fields ≡ true
      → (fuel : ℕ) → fuel < n
      → Never fuel
  unfolding Never lower lower_ty
  bounded-Never zero fields e h fuel less gen = absurd (omega arith)
  bounded-Never (suc n) fields e h zero less gen = refl
  bounded-Never (suc n) fields e h (suc fuel) less gen =
      both-second (Layout.struct ident) (lower_all (lower fuel decls) gen)
        (lower_struct (lower fuel decls) (lookup ℕ_discrete ident decls.name_struct))
        (ap (λ o. is_lowered (lower_struct (lower fuel decls) o)) e
          ∙ lower_all-points_to (lower fuel decls) decls ident fields
              (λ ty named.
                pointer-Never n fuel ty (omega arith) (λ m l. bounded-Never n fields e h m l) named)
              h)

  -- A struct with a pointer to itself among its fields, as in a linked list, is never lowered: on no
  -- fuel does the recursion into its definition give a type.
  pub lower-recursive :
      (fuel : ℕ) (gen fields : Ty.Types)
      → lookup ℕ_discrete ident decls.name_struct ≡ some fields
      → points_to decls ident fields ≡ true
      → is_lowered (lower fuel decls (Ty.struct ident gen)) ≡ false
  unfolding Never
  lower-recursive fuel gen fields e h = bounded-Never (suc fuel) fields e h fuel (omega arith) gen
