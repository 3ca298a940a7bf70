-- ===== src/Scopes/Resolve/Total.antt =====
-- src/typeck/scope.rs: `resolve_name` resolves a type whose paths are declared, and leaves no path in it.
use enumc.Prelude.{
  ℕ, ◌≡◌, refl, ◌∙◌, Bool, true, false, ◌&&◌, List, [], ◌∷◌, Option, none, some, lookup, ℕ_discrete,
  arith,
}
use enumc.Types.Ty.{
  Ty, generic, array, struct, enum, path, ptr, ref, const_str, int, char, float, bool, void, bottom,
  func, Types, nil, cons, Resolved, ok, fails, panic,
}
use enumc.Scopes.Walker.{Scope, trait_, imp, global, block, Items, ScopeWalker}
use enumc.Scopes.Resolve.{
  Adt, Names, generic_types, to_adt, to_global, type_of_scope, type_of_entry, entry_of,
  type_from_path, map_resolved, ResolvedAll, ok_all, map_all, cons_resolved, func_resolved,
  resolve_name, resolve_names,
}

unfoldable mutual
  pub path_free : Ty → Bool
  path_free (path p) = false
  path_free (array size ty) = path_free ty
  path_free (struct ident gen) = path_free_all gen
  path_free (enum ident gen) = path_free_all gen
  path_free (ptr ty) = path_free ty
  path_free (ref ty) = path_free ty
  path_free (func ident ret params) = path_free ret && path_free_all params
  path_free (generic ident bound) = true
  path_free (const_str size) = true
  path_free int = true
  path_free char = true
  path_free float = true
  path_free bool = true
  path_free void = true
  path_free bottom = true

  pub path_free_all : Types → Bool
  path_free_all nil = true
  path_free_all (cons ty tys) = path_free ty && path_free_all tys

abbrev pub is_ok : Resolved → Bool
is_ok (ok ty) = true
is_ok fails = false
is_ok panic = false

pub both : (a b : Bool) → (a && b) ≡ true → (a ≡ true) × (b ≡ true)
both a b h = (ground arith, ground arith)

both-true : (a b : Bool) → a ≡ true → b ≡ true → (a && b) ≡ true
both-true a b h k = ground arith

-- The result is a type without a path.
unfoldable pub Resolves : Resolved → Type 0
Resolves r = (new : Ty) × (r ≡ ok new) × (path_free new ≡ true)

unfoldable ResolvesAll : ResolvedAll → Type 0
ResolvesAll r = (new : Types) × (r ≡ ok_all new) × (path_free_all new ≡ true)

map_resolved-Resolves :
    (f : Ty → Ty) (r : Resolved)
    → ((new : Ty) → path_free (f new) ≡ path_free new)
    → Resolves r
    → Resolves (map_resolved f r)
unfolding Resolves
map_resolved-Resolves f r keeps (new, e, free) = rw e (f new, refl, keeps new ∙ free)

map_all-Resolves :
    (f : Types → Ty) (r : ResolvedAll)
    → ((new : Types) → path_free (f new) ≡ path_free_all new)
    → ResolvesAll r
    → Resolves (map_all f r)
unfolding Resolves ResolvesAll
map_all-Resolves f r keeps (new, e, free) = rw e (f new, refl, keeps new ∙ free)

cons_resolved-ResolvesAll :
    (r : Resolved) (rest : ResolvedAll)
    → Resolves r
    → ResolvesAll rest
    → ResolvesAll (cons_resolved r rest)
unfolding Resolves ResolvesAll path_free_all
cons_resolved-ResolvesAll r rest (new, e, free) (news, es, frees) =
    rw (e, es) (cons new news, refl, both-true (path_free new) (path_free_all news) free frees)

func_resolved-Resolves :
    (ident : ℕ) (rest : ResolvedAll) (r : Resolved)
    → ResolvesAll rest
    → Resolves r
    → Resolves (func_resolved ident rest r)
unfolding Resolves ResolvesAll path_free
func_resolved-Resolves ident rest r (news, es, frees) (new, e, free) =
    rw (es, e)
      (func ident new news, refl, both-true (path_free new) (path_free_all news) free frees)

path_free-generic_types :
    (generics : List (ℕ × Option (List ℕ))) → path_free_all (generic_types generics) ≡ true
unfolding path_free_all path_free
path_free-generic_types [] = refl
path_free-generic_types (g ∷ generics) = path_free-generic_types generics

-- The types of the globals have no paths.
unfoldable pub GlobalsFree : Names → Type 0
GlobalsFree names =
    (name : ℕ) (ty : Ty) → lookup ℕ_discrete name names.globals ≡ some ty → path_free ty ≡ true

to_adt-Resolves :
    (make : ℕ → Types → Ty) (o : Option Adt)
    → ((n : ℕ) (gen : Types) → path_free (make n gen) ≡ path_free_all gen)
    → is_ok (to_adt make o) ≡ true
    → Resolves (to_adt make o)
unfolding Resolves
to_adt-Resolves make none keeps h = absurd (ground arith)
to_adt-Resolves make (some it) keeps h = (
  make it.name (generic_types it.generics),
  refl,
  keeps it.name (generic_types it.generics) ∙ path_free-generic_types it.generics,
)

to_global-Resolves :
    (o : Option Ty)
    → ((ty : Ty) → o ≡ some ty → path_free ty ≡ true)
    → is_ok (to_global o) ≡ true
    → Resolves (to_global o)
unfolding Resolves
to_global-Resolves none free h = absurd (ground arith)
to_global-Resolves (some ty) free h = (ty, refl, free ty refl)

type_of_scope-Resolves :
    (names : Names) (scope : Scope)
    → GlobalsFree names
    → is_ok (type_of_scope names scope) ≡ true
    → Resolves (type_of_scope names scope)
unfolding type_of_scope GlobalsFree path_free
type_of_scope-Resolves names (trait_ file name) free h = absurd (ground arith)
type_of_scope-Resolves names (imp file name) free h = absurd (ground arith)
type_of_scope-Resolves names (Scope.func file name) free h = absurd (ground arith)
type_of_scope-Resolves names (Scope.struct file adt) free h =
    to_adt-Resolves struct (lookup ℕ_discrete adt names.name_struct) (λ n gen. refl) h
type_of_scope-Resolves names (Scope.enum file adt) free h =
    to_adt-Resolves enum (lookup ℕ_discrete adt names.name_enum) (λ n gen. refl) h
type_of_scope-Resolves names (global file name) free h =
    to_global-Resolves (lookup ℕ_discrete name names.globals) (free name) h
type_of_scope-Resolves names (block range) free h = absurd (ground arith)

type_of_entry-Resolves :
    (names : Names) (o : Option Items)
    → GlobalsFree names
    → is_ok (type_of_entry names o) ≡ true
    → Resolves (type_of_entry names o)
type_of_entry-Resolves names none free h = absurd (ground arith)
type_of_entry-Resolves names (some items) free h = type_of_scope-Resolves names items.parent free h

module _ (walker : ScopeWalker) (names : Names) (file : ℕ) where
  -- Every path of a type is declared as a type.
  unfoldable mutual
    pub resolvable : Ty → Bool
    resolvable (path p) = is_ok (type_from_path walker names file p)
    resolvable (array size ty) = resolvable ty
    resolvable (struct ident gen) = resolvable_all gen
    resolvable (enum ident gen) = resolvable_all gen
    resolvable (ptr ty) = resolvable ty
    resolvable (ref ty) = resolvable ty
    resolvable (func ident ret params) = resolvable ret && resolvable_all params
    resolvable _ = true

    pub resolvable_all : Types → Bool
    resolvable_all nil = true
    resolvable_all (cons ty tys) = resolvable ty && resolvable_all tys

  type_from_path-Resolves :
      (p : List ℕ)
      → GlobalsFree names
      → is_ok (type_from_path walker names file p) ≡ true
      → Resolves (type_from_path walker names file p)
  unfolding type_from_path
  type_from_path-Resolves [] free h = absurd (ground arith)
  type_from_path-Resolves (item ∷ segs) free h =
      type_of_entry-Resolves names (entry_of walker file item) free h

  mutual
    unfolding resolvable resolvable_all resolve_name resolve_names path_free path_free_all Resolves
        ResolvesAll

    Resolves-resolve_name :
        (ty : Ty)
        → GlobalsFree names
        → resolvable ty ≡ true
        → Resolves (resolve_name walker names file ty)
    Resolves-resolve_name (path p) free h = type_from_path-Resolves p free h
    Resolves-resolve_name (array size ty) free h =
        map_resolved-Resolves (array size) (resolve_name walker names file ty) (λ new. refl)
          (Resolves-resolve_name ty free h)
    Resolves-resolve_name (struct ident gen) free h =
        map_all-Resolves (struct ident) (resolve_names walker names file gen) (λ new. refl)
          (Resolves-resolve_names gen free h)
    Resolves-resolve_name (enum ident gen) free h =
        map_all-Resolves (enum ident) (resolve_names walker names file gen) (λ new. refl)
          (Resolves-resolve_names gen free h)
    Resolves-resolve_name (ptr ty) free h =
        map_resolved-Resolves ptr (resolve_name walker names file ty) (λ new. refl)
          (Resolves-resolve_name ty free h)
    Resolves-resolve_name (ref ty) free h =
        map_resolved-Resolves ref (resolve_name walker names file ty) (λ new. refl)
          (Resolves-resolve_name ty free h)
    Resolves-resolve_name (func ident ret params) free h =
        func_resolved-Resolves ident (resolve_names walker names file params)
          (resolve_name walker names file ret)
          (Resolves-resolve_names params free (both (resolvable ret) (resolvable_all params) h).1)
          (Resolves-resolve_name ret free (both (resolvable ret) (resolvable_all params) h).0)
    Resolves-resolve_name (generic ident bound) free h = (generic ident bound, refl, refl)
    Resolves-resolve_name (const_str size) free h = (const_str size, refl, refl)
    Resolves-resolve_name int free h = (int, refl, refl)
    Resolves-resolve_name char free h = (char, refl, refl)
    Resolves-resolve_name float free h = (float, refl, refl)
    Resolves-resolve_name bool free h = (bool, refl, refl)
    Resolves-resolve_name void free h = (void, refl, refl)
    Resolves-resolve_name bottom free h = (bottom, refl, refl)

    Resolves-resolve_names :
        (tys : Types)
        → GlobalsFree names
        → resolvable_all tys ≡ true
        → ResolvesAll (resolve_names walker names file tys)
    Resolves-resolve_names nil free h = (nil, refl, refl)
    Resolves-resolve_names (cons ty tys) free h =
        cons_resolved-ResolvesAll (resolve_name walker names file ty)
          (resolve_names walker names file tys)
          (Resolves-resolve_name ty free (both (resolvable ty) (resolvable_all tys) h).0)
          (Resolves-resolve_names tys free (both (resolvable ty) (resolvable_all tys) h).1)

  -- `resolve_name` succeeds on a type whose every path is declared as a type, and its result has no path
  -- left, if the globals' types have none.
  pub resolve_name-Resolves :
      (ty : Ty)
      → GlobalsFree names
      → resolvable ty ≡ true
      → Resolves (resolve_name walker names file ty)
  resolve_name-Resolves = Resolves-resolve_name
