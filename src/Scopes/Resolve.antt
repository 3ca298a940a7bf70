-- ===== src/Scopes/Resolve.antt =====
-- src/typeck/scope.rs: `resolve_name` and `type_from_path`, which put a declared type in the place of a
-- path. All the paths of a type stand in one file, whose number `type_from_path` takes from a path's span.
pub mod Total
pub mod Stable
use enumc.Prelude.{ℕ, List, [], ◌∷◌, Option, none, some, lookup, ℕ_discrete}
use enumc.Types.Ty.{
  Ty, generic, array, struct, enum, path, ptr, ref, const_str, int, char, float, bool, void, bottom,
  func, Types, nil, cons, Resolved, ok, fails, panic,
}
use enumc.Scopes.Walker.{
  Scope, trait_, imp, global, block, ItemIn, Items, ScopeContents, ScopeWalker, contents_of,
}
use enumc.Scopes.Walker

-- What `type_from_path` reads of a struct or an enum: its name and its generic parameters
pub record Adt : Type 0 where
  pub name : ℕ
  pub generics : List (ℕ × Option (List ℕ))

-- The part of `TyCheckRes` that is read
pub record Names : Type 0 where
  pub name_struct : List (ℕ × Adt)
  pub name_enum : List (ℕ × Adt)
  pub globals : List (ℕ × Ty)

abbrev pub generic_types : List (ℕ × Option (List ℕ)) → Types
generic_types [] = nil
generic_types (g ∷ generics) = cons (generic g.0 g.1) (generic_types generics)

abbrev pub to_adt : (ℕ → Types → Ty) → Option Adt → Resolved
to_adt make none = fails
to_adt make (some it) = ok (make it.name (generic_types it.generics))

abbrev pub to_global : Option Ty → Resolved
to_global none = fails
to_global (some ty) = ok ty

-- The type that a declaration stands for; `panic` is a `todo!`.
unfoldable pub type_of_scope : Names → Scope → Resolved
type_of_scope names (trait_ file name) = panic
type_of_scope names (imp file name) = panic
type_of_scope names (Scope.func file name) = fails
type_of_scope names (Scope.struct file adt) =
    to_adt struct (lookup ℕ_discrete adt names.name_struct)
type_of_scope names (Scope.enum file adt) = to_adt enum (lookup ℕ_discrete adt names.name_enum)
type_of_scope names (global file name) = to_global (lookup ℕ_discrete name names.globals)
type_of_scope names (block range) = panic

abbrev pub type_of_entry : Names → Option Items → Resolved
type_of_entry names none = fails
type_of_entry names (some items) = type_of_scope names items.parent

abbrev pub entry_in : ℕ → Option ScopeContents → Option Items
entry_in item none = none
entry_in item (some contents) = lookup ℕ_discrete item contents

-- The declaration of a name in a file
unfoldable pub entry_of : ScopeWalker → ℕ → ℕ → Option Items
entry_of walker file item = entry_in item (contents_of walker file)

unfoldable pub type_from_path : ScopeWalker → Names → ℕ → List ℕ → Resolved
type_from_path walker names file [] = fails
type_from_path walker names file (item ∷ segs) = type_of_entry names (entry_of walker file item)

abbrev pub map_resolved : (Ty → Ty) → Resolved → Resolved
map_resolved f (ok ty) = ok (f ty)
map_resolved f fails = fails
map_resolved f panic = panic

-- What a list of types resolves to: the first that does not resolve decides.
pub data ResolvedAll : Type 0 where
  ok_all : Types → ResolvedAll
  fails_all panic_all : ResolvedAll

abbrev pub map_all : (Types → Ty) → ResolvedAll → Resolved
map_all f (ok_all tys) = ok (f tys)
map_all f fails_all = fails
map_all f panic_all = panic

abbrev pub cons_resolved : Resolved → ResolvedAll → ResolvedAll
cons_resolved (ok ty) (ok_all tys) = ok_all (cons ty tys)
cons_resolved (ok ty) fails_all = fails_all
cons_resolved (ok ty) panic_all = panic_all
cons_resolved fails tys = fails_all
cons_resolved panic tys = panic_all

-- The parameters come first, then the return type.
abbrev pub func_resolved : ℕ → ResolvedAll → Resolved → Resolved
func_resolved ident (ok_all params) (ok ret) = ok (func ident ret params)
func_resolved ident (ok_all params) fails = fails
func_resolved ident (ok_all params) panic = panic
func_resolved ident fails_all ret = fails
func_resolved ident panic_all ret = panic

module _ (walker : ScopeWalker) (names : Names) (file : ℕ) where
  unfoldable mutual
    pub resolve_name : Ty → Resolved
    resolve_name (array size ty) = map_resolved (array size) (resolve_name ty)
    resolve_name (struct ident gen) = map_all (struct ident) (resolve_names gen)
    resolve_name (enum ident gen) = map_all (enum ident) (resolve_names gen)
    resolve_name (path p) = type_from_path walker names file p
    resolve_name (ptr ty) = map_resolved ptr (resolve_name ty)
    resolve_name (ref ty) = map_resolved ref (resolve_name ty)
    resolve_name (func ident ret params) =
        func_resolved ident (resolve_names params) (resolve_name ret)
    resolve_name (generic ident bound) = ok (generic ident bound)
    resolve_name (const_str size) = ok (const_str size)
    resolve_name int = ok int
    resolve_name char = ok char
    resolve_name float = ok float
    resolve_name bool = ok bool
    resolve_name void = ok void
    resolve_name bottom = ok bottom

    pub resolve_names : Types → ResolvedAll
    resolve_names nil = ok_all nil
    resolve_names (cons ty tys) = cons_resolved (resolve_name ty) (resolve_names tys)
