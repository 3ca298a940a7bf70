-- ===== src/Types/Equality.antt =====
-- `is_ty_eq`, the equality of types that the checker uses.
use enumc.Prelude.{ℕ, ◌≡◌, refl, ap₂, Bool, true, false, ◌&&◌, ◌==◌, ==_refl, arith}
use enumc.Types.Ty.{
  Ty, generic, array, struct, enum, path, ptr, ref, const_str, int, char, float, bool, void, bottom,
  func, Types, nil, cons, is_ty_eq, is_ty_eq_all,
}

-- No path stands where the comparison looks. The arguments of a struct are not looked at.
unfoldable mutual
  pub no_path : Ty → Bool
  no_path (path p) = false
  no_path (array size ty) = no_path ty
  no_path (enum ident gen) = no_path_all gen
  no_path (ptr ty) = no_path ty
  no_path (ref ty) = no_path ty
  no_path (func ident ret params) = no_path ret && no_path_all params
  no_path (generic ident bound) = true
  no_path (struct ident gen) = true
  no_path (const_str size) = true
  no_path int = true
  no_path char = true
  no_path float = true
  no_path bool = true
  no_path void = true
  no_path bottom = true

  pub no_path_all : Types → Bool
  no_path_all nil = true
  no_path_all (cons ty gen) = no_path ty && no_path_all gen

mutual
  unfolding is_ty_eq no_path

  is_ty_eq_self : (ty : Ty) → is_ty_eq ty ty ≡ no_path ty
  is_ty_eq_self (generic ident bound) = ==_refl ident
  is_ty_eq_self (array size ty) = rw (==_refl size) (is_ty_eq_self ty)
  is_ty_eq_self (struct ident gen) = ==_refl ident
  is_ty_eq_self (enum ident gen) = rw (==_refl ident) (is_ty_eq_all_self gen)
  is_ty_eq_self (path p) = refl
  is_ty_eq_self (ptr ty) = is_ty_eq_self ty
  is_ty_eq_self (ref ty) = is_ty_eq_self ty
  is_ty_eq_self (func ident ret params) = ap₂ ◌&&◌ (is_ty_eq_self ret) (is_ty_eq_all_self params)
  is_ty_eq_self _ = refl

  is_ty_eq_all_self : (gen : Types) → is_ty_eq_all gen gen ≡ no_path_all gen
  is_ty_eq_all_self nil = refl
  is_ty_eq_all_self (cons ty gen) = ap₂ ◌&&◌ (is_ty_eq_self ty) (is_ty_eq_all_self gen)

-- A type equals itself exactly if no path stands where the comparison looks.
pub is_ty_eq-no_path : (ty : Ty) → is_ty_eq ty ty ≡ no_path ty
is_ty_eq-no_path ty = is_ty_eq_self ty

==_comm : (a b : ℕ) → (a == b) ≡ (b == a)
==_comm a b = ground arith

mutual
  unfolding is_ty_eq

  is_ty_eq_swap : (a b : Ty) → is_ty_eq a b ≡ is_ty_eq b a
  is_ty_eq_swap (array s1 t1) (array s2 t2) = ap₂ ◌&&◌ (==_comm s1 s2) (is_ty_eq_swap t1 t2)
  is_ty_eq_swap (struct n1 g1) (struct n2 g2) = ==_comm n1 n2
  is_ty_eq_swap (enum n1 g1) (enum n2 g2) = ap₂ ◌&&◌ (==_comm n1 n2) (is_ty_eq_all_swap g1 g2)
  is_ty_eq_swap (ptr t1) (ptr t2) = is_ty_eq_swap t1 t2
  is_ty_eq_swap (ref t1) (ref t2) = is_ty_eq_swap t1 t2
  is_ty_eq_swap (generic i1 b1) (generic i2 b2) = ==_comm i1 i2
  is_ty_eq_swap (func n1 r1 p1) (func n2 r2 p2) =
      ap₂ ◌&&◌ (is_ty_eq_swap r1 r2) (is_ty_eq_all_swap p1 p2)
  is_ty_eq_swap (path p1) (path p2) = refl
  is_ty_eq_swap (const_str s1) (const_str s2) = refl
  is_ty_eq_swap int int = refl
  is_ty_eq_swap char char = refl
  is_ty_eq_swap float float = refl
  is_ty_eq_swap bool bool = refl
  is_ty_eq_swap void void = refl
  is_ty_eq_swap bottom bottom = refl
  is_ty_eq_swap _ _ = refl

  is_ty_eq_all_swap : (a b : Types) → is_ty_eq_all a b ≡ is_ty_eq_all b a
  is_ty_eq_all_swap (cons a g1) (cons b g2) = ap₂ ◌&&◌ (is_ty_eq_swap a b) (is_ty_eq_all_swap g1 g2)
  is_ty_eq_all_swap nil nil = refl
  is_ty_eq_all_swap _ _ = refl

-- The comparison does not depend on the order of its arguments.
pub is_ty_eq_comm : (a b : Ty) → is_ty_eq a b ≡ is_ty_eq b a
is_ty_eq_comm a b = is_ty_eq_swap a b
