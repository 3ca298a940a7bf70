-- ===== src/Lir/Lower.antt =====
-- src/lir/lower.rs: `Ty::lower`, which puts the definition of a struct or an enum into its type, with
-- `Struct::lower`, `Field::lower`, `Enum::lower` and `Variant::lower`. The code recurses into the
-- definitions: here on fuel. The names of fields and variants and the generics of a definition are not kept.
pub mod Recursive
pub mod Settles
pub mod Ranked
mod Tests
use enumc.Prelude.{ℕ, zero, suc, List, [], ◌∷◌, Option, none, some, lookup, ℕ_discrete}
use enumc.Types.Ty.{Resolved, ok, fails, panic}
use enumc.Types.Ty
use enumc.Lir.Layout.{Types, nil, cons, Variants, none_left, variant}
use enumc.Lir.Layout

-- What lowering gives: a result, the panic of an `unwrap`, or the end of the fuel
pub data Lowered (A : Type 0) : Type 0 where
  lowered : A → Lowered A
  panics out_of_fuel : Lowered A

abbrev pub map_lowered : {A B : Type 0} → (A → B) → Lowered A → Lowered B
map_lowered f (lowered a) = lowered (f a)
map_lowered f panics = panics
map_lowered f out_of_fuel = out_of_fuel

abbrev pub both_lowered : {A B C : Type 0} → (A → B → C) → Lowered A → Lowered B → Lowered C
both_lowered f (lowered a) b = map_lowered (f a) b
both_lowered f panics b = panics
both_lowered f out_of_fuel b = out_of_fuel

-- The types of the fields of each struct and of the variants of each enum, and what paths resolve to
pub record Decls : Type 0 where
  pub name_struct : List (ℕ × Ty.Types)
  pub name_enum : List (ℕ × List Ty.Types)
  pub resolve_path : List ℕ → Resolved

module _ (rec : Ty.Ty → Lowered Layout.Ty) where
  unfoldable pub lower_all : Ty.Types → Lowered Types
  lower_all Ty.nil = lowered nil
  lower_all (Ty.cons ty tys) = both_lowered cons (rec ty) (lower_all tys)

  unfoldable pub lower_variants : List Ty.Types → Lowered Variants
  lower_variants [] = lowered none_left
  lower_variants (tys ∷ variants) = both_lowered variant (lower_all tys) (lower_variants variants)

  -- `Struct::lower` of the definition
  abbrev pub lower_struct : Option Ty.Types → Lowered Types
  lower_struct none = panics
  lower_struct (some fields) = lower_all fields

  -- `Enum::lower` of the definition
  abbrev pub lower_enum : Option (List Ty.Types) → Lowered Variants
  lower_enum none = panics
  lower_enum (some variants) = lower_variants variants

  abbrev pub lower_resolved : Resolved → Lowered Layout.Ty
  lower_resolved (ok ty) = rec ty
  lower_resolved fails = panics
  lower_resolved panic = panics

  -- `Ty::lower`, where `rec` is its recursive call
  unfoldable pub lower_ty : Decls → Ty.Ty → Lowered Layout.Ty
  lower_ty decls (Ty.array n ty) = map_lowered (Layout.array n) (rec ty)
  lower_ty decls (Ty.struct ident gen) =
      both_lowered (Layout.struct ident) (lower_all gen)
        (lower_struct (lookup ℕ_discrete ident decls.name_struct))
  lower_ty decls (Ty.enum ident gen) =
      both_lowered (Layout.enum ident) (lower_all gen)
        (lower_enum (lookup ℕ_discrete ident decls.name_enum))
  lower_ty decls (Ty.ptr ty) = map_lowered Layout.ptr (rec ty)
  lower_ty decls (Ty.ref ty) = map_lowered Layout.ref (rec ty)
  lower_ty decls (Ty.const_str n) = lowered (Layout.const_str n)
  lower_ty decls Ty.int = lowered Layout.int
  lower_ty decls Ty.char = lowered Layout.char
  lower_ty decls Ty.float = lowered Layout.float
  lower_ty decls Ty.bool = lowered Layout.bool
  lower_ty decls Ty.void = lowered Layout.void
  lower_ty decls (Ty.generic ident bound) = lowered (Layout.generic ident bound)
  lower_ty decls (Ty.path p) = lower_resolved (decls.resolve_path p)
  lower_ty decls (Ty.func ident ret params) =
      both_lowered (Layout.func ident) (lower_all params) (rec ret)
  lower_ty decls Ty.bottom = lowered Layout.bottom

unfoldable pub lower : ℕ → Decls → Ty.Ty → Lowered Layout.Ty
lower zero decls ty = out_of_fuel
lower (suc fuel) decls ty = lower_ty (lower fuel decls) decls ty
