-- ===== src/Lir/Lower/Tests.antt =====
-- Runs of the lowering of types, and its theorem at a concrete input.
use enumc.Prelude.{
  sym, subst, true, some, arith, lookup, ℕ_discrete, ◌+◌, ℕ, ◌≡◌, refl, false, ◌==◌, if◌then◌else◌,
  List, [], ◌∷◌,
}
use enumc.Types.Ty
use enumc.Lir.Layout
use enumc.Lir.Lower.{Decls, lowered, panics, lower, lower_ty, lower_all, lower_variants}
use enumc.Lir.Lower.Ranked.{fits, fits_all, fits_variants, Ranked, lower-ranked}
use enumc.Lir.Lower.Recursive.{is_lowered, points_to, lower-recursive}

-- struct 5 { int, [3; path 6] }, enum 6 { a, b(char) }, and struct 7 { int, *path 7 }; path 9 is not declared.
abbrev resolve_path : List ℕ → Ty.Resolved
resolve_path [] = Ty.fails
resolve_path (name ∷ segs) =
    if name == 6
    then Ty.ok (Ty.enum 6 Ty.nil)
    else if name == 7
    then Ty.ok (Ty.struct 7 Ty.nil)
    else Ty.fails

abbrev decls : Decls
decls = record {
  name_struct =
      (5, Ty.cons Ty.int (Ty.cons (Ty.array 3 (Ty.path (6 ∷ []))) Ty.nil))
      ∷ (7, Ty.cons Ty.int (Ty.cons (Ty.ptr (Ty.path (7 ∷ []))) Ty.nil))
      ∷ [];
  name_enum = (6, Ty.nil ∷ Ty.cons Ty.char Ty.nil ∷ []) ∷ [];
  resolve_path = resolve_path;
}

struct_lowered :
    lower 9 decls (Ty.struct 5 Ty.nil)
    ≡ lowered (
        Layout.struct 5 Layout.nil (
          Layout.cons Layout.int (
            Layout.cons
              (Layout.array 3 (
                Layout.enum 6 Layout.nil (
                  Layout.variant Layout.nil
                    (Layout.variant (Layout.cons Layout.char Layout.nil) Layout.none_left))))
              Layout.nil)))
unfolding lower lower_ty lower_all lower_variants
struct_lowered = refl

unknown_path : lower 9 decls (Ty.ptr (Ty.path (9 ∷ []))) ≡ panics
unfolding lower lower_ty
unknown_path = refl

lower-recursive_example : is_lowered (lower 9 decls (Ty.struct 7 Ty.nil)) ≡ false
unfolding points_to
lower-recursive_example =
    lower-recursive decls 7 9 Ty.nil (Ty.cons Ty.int (Ty.cons (Ty.ptr (Ty.path (7 ∷ []))) Ty.nil))
      refl refl

-- struct 5 { int, *enum 6 } over enum 6 { a, b(char) }
abbrev fields_5 : Ty.Types
fields_5 = Ty.cons Ty.int (Ty.cons (Ty.ptr (Ty.enum 6 Ty.nil)) Ty.nil)

abbrev variants_6 : List Ty.Types
variants_6 = Ty.nil ∷ Ty.cons Ty.char Ty.nil ∷ []

abbrev ranked_decls : Decls
ranked_decls = record {
  name_struct = (5, fields_5) ∷ [];
  name_enum = (6, variants_6) ∷ [];
  resolve_path = resolve_path;
}

abbrev rank : ℕ → ℕ
rank i = if i == 5 then 1 else 0

-- A table of one entry has only that.
only :
    {V : Type 0} (key i : ℕ) (v w : V)
    → lookup ℕ_discrete i ((key, v) ∷ []) ≡ some w
    → (i ≡ key) × (v ≡ w)
only key i v w e = (ground (arith, ℕ_discrete i key), ground (arith, ℕ_discrete i key))

ranked_decls-Ranked : Ranked ranked_decls rank
unfolding Ranked fits fits_all
ranked_decls-Ranked = (
  (λ i fields e.
      let (p, q) = only 5 i fields_5 fields e in
      subst (λ j. fits_all ranked_decls rank (rank j) fields ≡ true) (sym p)
        (subst (λ tys. fits_all ranked_decls rank 1 tys ≡ true) q refl)),
  (λ i variants e.
      let (p, q) = only 6 i variants_6 variants e in
      subst (λ j. fits_variants ranked_decls rank (rank j) variants ≡ true) (sym p)
        (subst (λ l. fits_variants ranked_decls rank 0 l ≡ true) q refl)),
)

lower-ranked_example :
    (n : ℕ) × (a : Layout.Ty) × ((fuel : ℕ)
      → lower (n + fuel) ranked_decls (Ty.struct 5 Ty.nil) ≡ lowered a)
unfolding fits fits_all
lower-ranked_example =
    lower-ranked ranked_decls rank 2 (Ty.struct 5 Ty.nil) ranked_decls-Ranked refl
