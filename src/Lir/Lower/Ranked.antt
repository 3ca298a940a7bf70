-- ===== src/Lir/Lower/Ranked.antt =====
-- src/lir/lower.rs: a type of definitions that do not refer back to themselves is lowered.
use enumc.Prelude.{
  ℕ, zero, suc, ◌+◌, ◌≤◌, ◌<◌, ◌≡◌, refl, sym, subst, Bool, true, false, ◌&&◌, List, [], ◌∷◌,
  Option, none, some, lookup, ℕ_discrete, arith, ltb,
}
use enumc.Types.Ty
use enumc.Lir.Layout.{Types, nil, cons, Variants, none_left, variant}
use enumc.Lir.Layout
use enumc.Lir.Lower.{
  lowered, Decls, lower_all, lower_variants, lower_struct, lower_enum, lower_ty, lower,
}
use enumc.Lir.Lower.Settles.{Settles, Settles-map, Settles-both, Settles-result, Settles-lower}

both : (a b : Bool) → (a && b) ≡ true → (a ≡ true) × (b ≡ true)
both a b h = (ground arith, ground arith)

abbrev pub is_declared {ℓ} : {A : Type ℓ} → Option A → Bool
is_declared none = false
is_declared (some a) = true

is_declared-eq : {A : Type 0} (o : Option A) → is_declared o ≡ true → (a : A) × (o ≡ some a)
is_declared-eq none h = absurd (ground arith)
is_declared-eq (some a) h = (a, refl)

module _ (decls : Decls) (rank : ℕ → ℕ) where
  -- The structs and enums of the type are declared and of a rank below `k`, and no path is left.
  unfoldable mutual
    pub fits : ℕ → Ty.Ty → Bool
    fits k (Ty.array n ty) = fits k ty
    fits k (Ty.struct i gen) =
        ltb (rank i) k && (is_declared (lookup ℕ_discrete i decls.name_struct) && fits_all k gen)
    fits k (Ty.enum i gen) =
        ltb (rank i) k && (is_declared (lookup ℕ_discrete i decls.name_enum) && fits_all k gen)
    fits k (Ty.ptr ty) = fits k ty
    fits k (Ty.ref ty) = fits k ty
    fits k (Ty.func i ret params) = fits k ret && fits_all k params
    fits k (Ty.path p) = false
    fits k (Ty.generic i bound) = true
    fits k (Ty.const_str n) = true
    fits k Ty.int = true
    fits k Ty.char = true
    fits k Ty.float = true
    fits k Ty.bool = true
    fits k Ty.void = true
    fits k Ty.bottom = true

    pub fits_all : ℕ → Ty.Types → Bool
    fits_all k Ty.nil = true
    fits_all k (Ty.cons ty tys) = fits k ty && fits_all k tys

  abbrev pub fits_variants : ℕ → List Ty.Types → Bool
  fits_variants k [] = true
  fits_variants k (tys ∷ variants) = fits_all k tys && fits_variants k variants

  -- The definitions of a rank below `k` can be lowered.
  unfoldable StructsSettle : ℕ → Type 0
  StructsSettle k =
      (i : ℕ) (fields : Ty.Types)
      → rank i < k
      → lookup ℕ_discrete i decls.name_struct ≡ some fields
      → Settles (λ fuel. lower_all (lower fuel decls) fields)

  unfoldable EnumsSettle : ℕ → Type 0
  EnumsSettle k =
      (i : ℕ) (variants : List Ty.Types)
      → rank i < k
      → lookup ℕ_discrete i decls.name_enum ≡ some variants
      → Settles (λ fuel. lower_variants (lower fuel decls) variants)

  struct-Settles :
      (k i : ℕ) (gen : Ty.Types)
      → StructsSettle k
      → rank i < k
      → is_declared (lookup ℕ_discrete i decls.name_struct) ≡ true
      → Settles (λ fuel. lower_all (lower fuel decls) gen)
      → Settles (λ fuel. lower fuel decls (Ty.struct i gen))
  unfolding StructsSettle lower_ty
  struct-Settles k i gen settle less known gens =
      let (fields, e) = is_declared-eq (lookup ℕ_discrete i decls.name_struct) known in
      Settles-lower decls (Ty.struct i gen) (
        Settles-both (Layout.struct i) (λ fuel. lower_all (lower fuel decls) gen)
          (λ fuel. lower_struct (lower fuel decls) (lookup ℕ_discrete i decls.name_struct)) gens
          (subst (λ o. Settles (λ fuel. lower_struct (lower fuel decls) o)) (sym e)
            (settle i fields less e)))

  enum-Settles :
      (k i : ℕ) (gen : Ty.Types)
      → EnumsSettle k
      → rank i < k
      → is_declared (lookup ℕ_discrete i decls.name_enum) ≡ true
      → Settles (λ fuel. lower_all (lower fuel decls) gen)
      → Settles (λ fuel. lower fuel decls (Ty.enum i gen))
  unfolding EnumsSettle lower_ty
  enum-Settles k i gen settle less known gens =
      let (variants, e) = is_declared-eq (lookup ℕ_discrete i decls.name_enum) known in
      Settles-lower decls (Ty.enum i gen) (
        Settles-both (Layout.enum i) (λ fuel. lower_all (lower fuel decls) gen)
          (λ fuel. lower_enum (lower fuel decls) (lookup ℕ_discrete i decls.name_enum)) gens
          (subst (λ o. Settles (λ fuel. lower_enum (lower fuel decls) o)) (sym e)
            (settle i variants less e)))

  ltb-less : (a b : ℕ) → ltb a b ≡ true → a < b
  ltb-less a b h = ground arith

  mutual
    unfolding fits fits_all lower_ty lower_all

    fits-Settles :
        (ty : Ty.Ty) (k : ℕ)
        → StructsSettle k
        → EnumsSettle k
        → fits k ty ≡ true
        → Settles (λ fuel. lower fuel decls ty)
    fits-Settles (Ty.array n ty) k s e h =
        Settles-lower decls (Ty.array n ty)
          (Settles-map (Layout.array n) (λ fuel. lower fuel decls ty) (fits-Settles ty k s e h))
    fits-Settles (Ty.ptr ty) k s e h =
        Settles-lower decls (Ty.ptr ty)
          (Settles-map Layout.ptr (λ fuel. lower fuel decls ty) (fits-Settles ty k s e h))
    fits-Settles (Ty.ref ty) k s e h =
        Settles-lower decls (Ty.ref ty)
          (Settles-map Layout.ref (λ fuel. lower fuel decls ty) (fits-Settles ty k s e h))
    fits-Settles (Ty.struct i gen) k s e h =
        let (less, rest) =
          both (ltb (rank i) k)
            (is_declared (lookup ℕ_discrete i decls.name_struct) && fits_all k gen) h in
        let (known, gens) =
          both (is_declared (lookup ℕ_discrete i decls.name_struct)) (fits_all k gen) rest in
        struct-Settles k i gen s (ltb-less (rank i) k less) known (fits_all-Settles gen k s e gens)
    fits-Settles (Ty.enum i gen) k s e h =
        let (less, rest) =
          both (ltb (rank i) k)
            (is_declared (lookup ℕ_discrete i decls.name_enum) && fits_all k gen) h in
        let (known, gens) =
          both (is_declared (lookup ℕ_discrete i decls.name_enum)) (fits_all k gen) rest in
        enum-Settles k i gen e (ltb-less (rank i) k less) known (fits_all-Settles gen k s e gens)
    fits-Settles (Ty.func i ret params) k s e h =
        let (first, rest) = both (fits k ret) (fits_all k params) h in
        Settles-lower decls (Ty.func i ret params) (
          Settles-both (Layout.func i) (λ fuel. lower_all (lower fuel decls) params)
            (λ fuel. lower fuel decls ret) (fits_all-Settles params k s e rest)
            (fits-Settles ret k s e first))
    fits-Settles (Ty.path p) k s e h = absurd (ground arith)
    fits-Settles (Ty.generic i bound) k s e h =
        Settles-lower decls (Ty.generic i bound) (Settles-result (Layout.generic i bound))
    fits-Settles (Ty.const_str n) k s e h =
        Settles-lower decls (Ty.const_str n) (Settles-result (Layout.const_str n))
    fits-Settles Ty.int k s e h = Settles-lower decls Ty.int (Settles-result Layout.int)
    fits-Settles Ty.char k s e h = Settles-lower decls Ty.char (Settles-result Layout.char)
    fits-Settles Ty.float k s e h = Settles-lower decls Ty.float (Settles-result Layout.float)
    fits-Settles Ty.bool k s e h = Settles-lower decls Ty.bool (Settles-result Layout.bool)
    fits-Settles Ty.void k s e h = Settles-lower decls Ty.void (Settles-result Layout.void)
    fits-Settles Ty.bottom k s e h = Settles-lower decls Ty.bottom (Settles-result Layout.bottom)

    fits_all-Settles :
        (tys : Ty.Types) (k : ℕ)
        → StructsSettle k
        → EnumsSettle k
        → fits_all k tys ≡ true
        → Settles (λ fuel. lower_all (lower fuel decls) tys)
    fits_all-Settles Ty.nil k s e h = Settles-result nil
    fits_all-Settles (Ty.cons ty tys) k s e h =
        let (first, rest) = both (fits k ty) (fits_all k tys) h in
        Settles-both cons (λ fuel. lower fuel decls ty) (λ fuel. lower_all (lower fuel decls) tys)
          (fits-Settles ty k s e first) (fits_all-Settles tys k s e rest)

  fits_variants-Settles :
      (variants : List Ty.Types) (k : ℕ)
      → StructsSettle k
      → EnumsSettle k
      → fits_variants k variants ≡ true
      → Settles (λ fuel. lower_variants (lower fuel decls) variants)
  unfolding lower_variants
  fits_variants-Settles [] k s e h = Settles-result none_left
  fits_variants-Settles (tys ∷ variants) k s e h =
      let (first, rest) = both (fits_all k tys) (fits_variants k variants) h in
      Settles-both variant (λ fuel. lower_all (lower fuel decls) tys)
        (λ fuel. lower_variants (lower fuel decls) variants) (fits_all-Settles tys k s e first)
        (fits_variants-Settles variants k s e rest)

  -- Each definition refers to definitions of a smaller rank only.
  unfoldable pub Ranked : Type 0
  Ranked =
      ((i : ℕ) (fields : Ty.Types)
        → lookup ℕ_discrete i decls.name_struct ≡ some fields
        → fits_all (rank i) fields ≡ true)
      × ((i : ℕ) (variants : List Ty.Types)
          → lookup ℕ_discrete i decls.name_enum ≡ some variants
          → fits_variants (rank i) variants ≡ true)

  weaken : (j k : ℕ) → j ≤ k → StructsSettle k × EnumsSettle k → StructsSettle j × EnumsSettle j
  unfolding StructsSettle EnumsSettle
  weaken j k le (s, e) = (
    λ i fields less found. s i fields (omega arith) found,
    λ i variants less found. e i variants (omega arith) found,
  )

  decls-Settle : (k : ℕ) → Ranked → StructsSettle k × EnumsSettle k
  unfolding Ranked StructsSettle EnumsSettle
  decls-Settle zero ranked =
      (λ i fields less e. absurd (omega arith), λ i variants less e. absurd (omega arith))
  decls-Settle (suc k) ranked = (
    (λ i fields less e.
        let (s, t) = weaken (rank i) k (omega arith) (decls-Settle k ranked) in
        fits_all-Settles fields (rank i) s t (ranked.0 i fields e)),
    (λ i variants less e.
        let (s, t) = weaken (rank i) k (omega arith) (decls-Settle k ranked) in
        fits_variants-Settles variants (rank i) s t (ranked.1 i variants e)),
  )

  -- If each definition refers to declared definitions of a smaller rank only, and neither they nor
  -- the type have a path left, lowering the type ends with a result, which is the same on any fuel from
  -- some fuel on: the recursion of the code is finite.
  pub lower-ranked :
      (k : ℕ) (ty : Ty.Ty)
      → Ranked
      → fits k ty ≡ true
      → (n : ℕ) × (a : Layout.Ty) × ((fuel : ℕ) → lower (n + fuel) decls ty ≡ lowered a)
  unfolding Settles
  lower-ranked k ty ranked h =
      let (s, e) = decls-Settle k ranked in
      let (n, a, same) = fits-Settles ty k s e h in (n, a, λ fuel. same (n + fuel) (omega arith))
