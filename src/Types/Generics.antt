-- ===== src/Types/Generics.antt =====
-- Generic parameters: `generics`, `has_generics` and `subst_generic`.
use enumc.Prelude.{
  ℕ, ◌≡◌, refl, sym, ap, ap₂, subst, ◌∙◌, List, [], ◌∷◌, ◌++◌, Option, none, some, ◌==◌,
  if◌then◌else◌, Bool-cases, inl, inr,
}
use enumc.Types.Ty.{
  Ty, generic, array, struct, enum, ptr, ref, func, Types, nil, cons, append, generics,
  generics_all, map_ty, map_types, cons_option, subst_generic, subst_generic_all,
}
use mathlib.Core.List.{append_assoc, append-nil}

-- `names` with `gs` in place of each `g`
abbrev pub replace : ℕ → List ℕ → List ℕ → List ℕ
replace g gs [] = []
replace g gs (name ∷ names) = (if g == name then gs else name ∷ []) ++ replace g gs names

abbrev pub replace_in : ℕ → List ℕ → Option (List ℕ) → Option (List ℕ)
replace_in g gs none = none
replace_in g gs (some names) = some (replace g gs names)

replace-++ : (g : ℕ) (gs a b : List ℕ) → replace g gs (a ++ b) ≡ replace g gs a ++ replace g gs b
replace-++ g gs [] b = refl
replace-++ g gs (name ∷ a) b =
    ap (◌++◌ (if g == name then gs else name ∷ [])) (replace-++ g gs a b)
    ∙ sym (append_assoc (if g == name then gs else name ∷ []) (replace g gs a) (replace g gs b))

replace_in-append :
    (g : ℕ) (gs : List ℕ) (a b : Option (List ℕ))
    → replace_in g gs (append a b) ≡ append (replace_in g gs a) (replace_in g gs b)
replace_in-append g gs none b = refl
replace_in-append g gs (some a) none = refl
replace_in-append g gs (some a) (some b) = ap some (replace-++ g gs a b)

-- If the substitution returns, these are the generics of its result.
abbrev Has : Option Ty → Option (List ℕ) → Type 0
Has none names = Unit {0}
Has (some ty) names = generics ty ≡ names

abbrev HasAll : Option Types → Option (List ℕ) → Type 0
HasAll none names = Unit {0}
HasAll (some gen) names = generics_all gen ≡ names

Has-map_ty :
    (f : Ty → Ty) (o : Option Ty) (names : Option (List ℕ))
    → ((ty : Ty) → generics (f ty) ≡ generics ty)
    → Has o names
    → Has (map_ty f o) names
Has-map_ty f none names same has = tt
Has-map_ty f (some ty) names same has = same ty ∙ has

Has-map_types :
    (f : Types → Ty) (o : Option Types) (names : Option (List ℕ))
    → ((gen : Types) → generics (f gen) ≡ generics_all gen)
    → HasAll o names
    → Has (map_types f o) names
Has-map_types f none names same has = tt
Has-map_types f (some gen) names same has = same gen ∙ has

HasAll-cons :
    (o : Option Ty) (p : Option Types) (a b : Option (List ℕ))
    → Has o a
    → HasAll p b
    → HasAll (cons_option o p) (append a b)
unfolding generics
HasAll-cons none p a b has has_all = tt
HasAll-cons (some ty) none a b has has_all = tt
HasAll-cons (some ty) (some gen) a b has has_all = ap₂ append has has_all

Has-generic :
    (g ident : ℕ) (bound : Option (List ℕ)) (subs : Ty) (gs : List ℕ)
    → generics subs ≡ some gs
    → generics (if g == ident then subs else generic ident bound)
      ≡ some ((if g == ident then gs else ident ∷ []) ++ [])
unfolding generics
Has-generic g ident bound subs gs e = elim (Bool-cases (g == ident)) [
  | inl same ↦ rw (same, e, append-nil gs)
  | inr other ↦ rw other
]

mutual
  unfolding subst_generic generics

  subst_generic-Has :
      (ty : Ty) (g : ℕ) (subs : Ty) (gs : List ℕ)
      → generics subs ≡ some gs
      → Has (subst_generic ty g subs) (replace_in g gs (generics ty))
  subst_generic-Has (generic ident bound) g subs gs e = Has-generic g ident bound subs gs e
  subst_generic-Has (array size ty) g subs gs e =
      Has-map_ty (array size) (subst_generic ty g subs) _ (λ t. refl)
        (subst_generic-Has ty g subs gs e)
  subst_generic-Has (struct ident gen) g subs gs e =
      Has-map_types (struct ident) (subst_generic_all gen g subs) _ (λ t. refl)
        (subst_generic_all-Has gen g subs gs e)
  subst_generic-Has (enum ident gen) g subs gs e =
      Has-map_types (enum ident) (subst_generic_all gen g subs) _ (λ t. refl)
        (subst_generic_all-Has gen g subs gs e)
  subst_generic-Has (ptr ty) g subs gs e =
      Has-map_ty ptr (subst_generic ty g subs) _ (λ t. refl) (subst_generic-Has ty g subs gs e)
  subst_generic-Has (ref ty) g subs gs e =
      Has-map_ty ref (subst_generic ty g subs) _ (λ t. refl) (subst_generic-Has ty g subs gs e)
  subst_generic-Has (func ident ret params) g subs gs e = tt
  subst_generic-Has _ g subs gs e = refl

  subst_generic_all-Has :
      (gen : Types) (g : ℕ) (subs : Ty) (gs : List ℕ)
      → generics subs ≡ some gs
      → HasAll (subst_generic_all gen g subs) (replace_in g gs (generics_all gen))
  subst_generic_all-Has nil g subs gs e = refl
  subst_generic_all-Has (cons ty gen) g subs gs e =
      subst (HasAll (subst_generic_all (cons ty gen) g subs))
        (sym (replace_in-append g gs (generics ty) (generics_all gen)))
        (HasAll-cons (subst_generic ty g subs) (subst_generic_all gen g subs) _ _
          (subst_generic-Has ty g subs gs e) (subst_generic_all-Has gen g subs gs e))

-- Substituting the type `subs` for the parameter `g` puts the parameters of `subs`, in order, in the
-- place of each `g` among the parameters of the type, if the substitution returns and `subs` has
-- no path.
pub generics-subst_generic :
    (ty : Ty) (g : ℕ) (subs result : Ty) (gs : List ℕ)
    → generics subs ≡ some gs
    → subst_generic ty g subs ≡ some result
    → generics result ≡ replace_in g gs (generics ty)
generics-subst_generic ty g subs result gs e done =
    subst (λ o. Has o (replace_in g gs (generics ty))) done (subst_generic-Has ty g subs gs e)
