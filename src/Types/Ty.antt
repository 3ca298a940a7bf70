-- ===== src/Types/Ty.antt =====
-- src/ast/types.rs: `Ty` and its methods. A `Type` is a `Ty` with a span; no method here reads a span,
-- so none is kept.
use enumc.Prelude.{
  ℕ, zero, suc, ◌+◌, Bool, true, false, ◌&&◌, ◌||◌, List, [], ◌∷◌, ◌++◌, Option, none, some, ◌==◌,
  if◌then◌else◌,
}

-- An `Ident` is the number of its interned name, and a `Path` the list of its segments: two are equal
-- if these are. `generic ident bound`, `array size ty`, `struct ident gen`, `enum ident gen`, `const_str size`,
-- `func ident ret params`
mutual
  pub data Ty : Type 0 where
    generic : ℕ → Option (List ℕ) → Ty
    array : ℕ → Ty → Ty
    struct enum : ℕ → Types → Ty
    path : List ℕ → Ty
    ptr ref : Ty → Ty
    const_str : ℕ → Ty
    int char float bool void bottom : Ty
    func : ℕ → Ty → Types → Ty

  pub data Types : Type 0 where
    nil : Types
    cons : Ty → Types → Types

-- A chain of two lists that are each built or, by `none`, a panic.
abbrev pub append : Option (List ℕ) → Option (List ℕ) → Option (List ℕ)
append none b = none
append (some a) none = none
append (some a) (some b) = some (a ++ b)

-- `generics`, where `none` is the `todo!` at a path.
unfoldable mutual
  pub generics : Ty → Option (List ℕ)
  generics (generic ident bound) = some (ident ∷ [])
  generics (array size ty) = generics ty
  generics (struct ident gen) = generics_all gen
  generics (enum ident gen) = generics_all gen
  generics (ptr ty) = generics ty
  generics (ref ty) = generics ty
  generics (func ident ret params) = append (generics_all params) (generics ret)
  generics (path p) = none
  generics (const_str size) = some []
  generics int = some []
  generics char = some []
  generics float = some []
  generics bool = some []
  generics void = some []
  generics bottom = some []

  pub generics_all : Types → Option (List ℕ)
  generics_all nil = some []
  generics_all (cons ty gen) = append (generics ty) (generics_all gen)

-- `!gen.is_empty()`
abbrev pub is_cons : Types → Bool
is_cons nil = false
is_cons (cons ty gen) = true

unfoldable mutual
  pub has_generics : Ty → Bool
  has_generics (generic ident bound) = true
  has_generics (array size ty) = has_generics ty
  has_generics (struct ident gen) = is_cons gen
  has_generics (enum ident gen) = is_cons gen
  has_generics (ptr ty) = has_generics ty
  has_generics (ref ty) = has_generics ty
  has_generics (func ident ret params) = has_generics ret || has_generics_any params
  has_generics (path p) = false
  has_generics (const_str size) = false
  has_generics int = false
  has_generics char = false
  has_generics float = false
  has_generics bool = false
  has_generics void = false
  has_generics bottom = false

  pub has_generics_any : Types → Bool
  has_generics_any nil = false
  has_generics_any (cons ty gen) = has_generics ty || has_generics_any gen

abbrev pub map_ty : (Ty → Ty) → Option Ty → Option Ty
map_ty f none = none
map_ty f (some ty) = some (f ty)

abbrev pub map_types : (Types → Ty) → Option Types → Option Ty
map_types f none = none
map_types f (some gen) = some (f gen)

abbrev pub cons_option : Option Ty → Option Types → Option Types
cons_option none gen = none
cons_option (some ty) none = none
cons_option (some ty) (some gen) = some (cons ty gen)

-- `subst_generic`, where `none` is the `todo!` at a function.
unfoldable mutual
  pub subst_generic : Ty → ℕ → Ty → Option Ty
  subst_generic (generic ident bound) g subs =
      some (if g == ident then subs else generic ident bound)
  subst_generic (array size ty) g subs = map_ty (array size) (subst_generic ty g subs)
  subst_generic (struct ident gen) g subs = map_types (struct ident) (subst_generic_all gen g subs)
  subst_generic (enum ident gen) g subs = map_types (enum ident) (subst_generic_all gen g subs)
  subst_generic (ptr ty) g subs = map_ty ptr (subst_generic ty g subs)
  subst_generic (ref ty) g subs = map_ty ref (subst_generic ty g subs)
  subst_generic (func ident ret params) g subs = none
  subst_generic (path p) g subs = some (path p)
  subst_generic (const_str size) g subs = some (const_str size)
  subst_generic int g subs = some int
  subst_generic char g subs = some char
  subst_generic float g subs = some float
  subst_generic bool g subs = some bool
  subst_generic void g subs = some void
  subst_generic bottom g subs = some bottom

  pub subst_generic_all : Types → ℕ → Ty → Option Types
  subst_generic_all nil g subs = some nil
  subst_generic_all (cons ty gen) g subs =
      cons_option (subst_generic ty g subs) (subst_generic_all gen g subs)

unfoldable pub dereference : Ty → ℕ → Ty
dereference new zero = new
dereference new (suc indirection) = dereference (ref new) indirection

-- What `resolve` returns: a type, `None`, or the panic of a `todo!`.
pub data Resolved : Type 0 where
  ok : Ty → Resolved
  fails panic : Resolved

-- The second loop of `resolve`: peel off a pointer for each reference.
unfoldable pub peel : ℕ → Ty → Resolved
peel zero new = ok new
peel (suc deref) (ptr ty) = peel deref ty
peel (suc deref) (array size ty) = panic
peel (suc deref) (const_str size) = panic
peel (suc deref) _ = fails

-- The first loop: count the references.
unfoldable pub resolve_from : Ty → ℕ → Resolved
resolve_from (ref t) deref = resolve_from t (deref + 1)
resolve_from new deref = peel deref new

unfoldable pub resolve : Ty → Resolved
resolve ty = resolve_from ty 0

unfoldable pub array_dim : Ty → ℕ
array_dim (array size ty) = suc (array_dim ty)
array_dim _ = 0

-- `is_ty_eq`; `zip(..).all(..)` stops with the shorter list.
unfoldable mutual
  pub is_ty_eq : Ty → Ty → Bool
  is_ty_eq (array s1 t1) (array s2 t2) = s1 == s2 && is_ty_eq t1 t2
  is_ty_eq (struct n1 g1) (struct n2 g2) = n1 == n2
  is_ty_eq (enum n1 g1) (enum n2 g2) = n1 == n2 && is_ty_eq_all g1 g2
  is_ty_eq (ptr t1) (ptr t2) = is_ty_eq t1 t2
  is_ty_eq (ref t1) (ref t2) = is_ty_eq t1 t2
  is_ty_eq (const_str s1) (const_str s2) = true
  is_ty_eq int int = true
  is_ty_eq char char = true
  is_ty_eq float float = true
  is_ty_eq bool bool = true
  is_ty_eq void void = true
  is_ty_eq bottom _ = true
  is_ty_eq _ bottom = true
  is_ty_eq (generic i1 b1) (generic i2 b2) = i1 == i2
  is_ty_eq (func n1 r1 p1) (func n2 r2 p2) = is_ty_eq r1 r2 && is_ty_eq_all p1 p2
  is_ty_eq _ _ = false

  pub is_ty_eq_all : Types → Types → Bool
  is_ty_eq_all (cons a g1) (cons b g2) = is_ty_eq a b && is_ty_eq_all g1 g2
  is_ty_eq_all _ _ = true
