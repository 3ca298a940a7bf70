-- ===== src/Scopes/Resolve/Stable.antt =====
-- src/typeck/scope.rs: a type without a path is what it resolves to.
use enumc.Prelude.{ℕ, ◌≡◌, refl, ap, ap₂, true, arith}
use enumc.Types.Ty.{
  Ty, generic, array, struct, enum, path, ptr, ref, const_str, int, char, float, bool, void, bottom,
  func, Types, nil, cons, ok,
}
use enumc.Scopes.Walker.{ScopeWalker}
use enumc.Scopes.Resolve.{
  Names, map_resolved, ok_all, map_all, cons_resolved, func_resolved, resolve_name, resolve_names,
}
use enumc.Scopes.Resolve.Total.{path_free, path_free_all, both}

module _ (walker : ScopeWalker) (names : Names) (file : ℕ) where
  mutual
    unfolding resolve_name resolve_names path_free path_free_all

    -- A type without a path resolves to itself, in any file and whatever is declared: resolving a type a
    -- second time changes nothing.
    pub resolve_name-path_free :
        (ty : Ty) → path_free ty ≡ true → resolve_name walker names file ty ≡ ok ty
    resolve_name-path_free (path p) h = absurd (ground arith)
    resolve_name-path_free (array size ty) h =
        ap (map_resolved (array size)) (resolve_name-path_free ty h)
    resolve_name-path_free (struct ident gen) h =
        ap (map_all (struct ident)) (resolve_names-path_free gen h)
    resolve_name-path_free (enum ident gen) h =
        ap (map_all (enum ident)) (resolve_names-path_free gen h)
    resolve_name-path_free (ptr ty) h = ap (map_resolved ptr) (resolve_name-path_free ty h)
    resolve_name-path_free (ref ty) h = ap (map_resolved ref) (resolve_name-path_free ty h)
    resolve_name-path_free (func ident ret params) h =
        let (first, rest) = both (path_free ret) (path_free_all params) h in
        ap₂ (func_resolved ident) (resolve_names-path_free params rest)
          (resolve_name-path_free ret first)
    resolve_name-path_free (generic ident bound) h = refl
    resolve_name-path_free (const_str size) h = refl
    resolve_name-path_free int h = refl
    resolve_name-path_free char h = refl
    resolve_name-path_free float h = refl
    resolve_name-path_free bool h = refl
    resolve_name-path_free void h = refl
    resolve_name-path_free bottom h = refl

    resolve_names-path_free :
        (tys : Types) → path_free_all tys ≡ true → resolve_names walker names file tys ≡ ok_all tys
    resolve_names-path_free nil h = refl
    resolve_names-path_free (cons ty tys) h =
        let (first, rest) = both (path_free ty) (path_free_all tys) h in
        ap₂ cons_resolved (resolve_name-path_free ty first) (resolve_names-path_free tys rest)
