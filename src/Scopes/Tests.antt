-- ===== src/Scopes/Tests.antt =====
-- Runs of the scopes and the traits, and their theorems at concrete inputs.
use enumc.Prelude.{ℕ, ◌≡◌, ◌≢◌, refl, List, [], ◌∷◌, none, some, lookup, ℕ_discrete, arith}
use enumc.Types.Ty.{Ty, generic, struct, ptr, array, path, nil, cons, ok, fails}
use enumc.Scopes.Walker.{
  Scope, field, var, ScopeWalker, contents_of, add_item, add_items, add_to_scope_stack, visit_let,
}
use enumc.Scopes.Resolve.{Names, entry_of, resolve_name, type_from_path, type_of_scope}
use enumc.Scopes.Resolve.Total.{GlobalsFree, Resolves, resolvable, resolve_name-Resolves}
use enumc.Scopes.Adts.{Holds, add_items-type_from_path}
use enumc.Scopes.Generic.{
  Node, enum_node, struct_node, GenericParam, param, child, leaf, child_iter, iterate, next,
}
use enumc.Scopes.Generic.Walk.{nodes_below, child_iter-nodes_below}
use mathlib.Core.List.{Perm}
use enumc.Scopes.Traits.{Impl, TraitSolve, add_impl, Adds, add_impl-Adds, duplicate}

-- File 1 declares struct 5<9> with two fields.
abbrev fresh : ScopeWalker
fresh = record { global_scope = (1, []) ∷ []; scope_stack = [] }

abbrev names : Names
names = record {
  name_struct = (5, record { name = 5; generics = (9, none) ∷ [] }) ∷ [];
  name_enum = [];
  globals = [];
}

abbrev declared : ScopeWalker
declared = record {
  global_scope =
      (1, (5, record { parent = Scope.struct 1 5; items = field 6 ∷ field 7 ∷ [] }) ∷ []) ∷ [];
  scope_stack = [];
}

known : contents_of fresh 1 ≢ none
known e = absurd (ground arith)

add_items-type_from_path_example :
    (walker : ScopeWalker) × (add_items (field 6 ∷ field 7 ∷ []) fresh 1 (Scope.struct 1 5)
      ≡ some walker)
    × Holds walker 1 5 (Scope.struct 1 5) (field 6 ∷ field 7 ∷ [])
    × (type_from_path walker names 1 (5 ∷ []) ≡ type_of_scope names (Scope.struct 1 5))
unfolding entry_of
add_items-type_from_path_example =
    add_items-type_from_path (field 6) (field 7 ∷ []) fresh names 1 5 [] (Scope.struct 1 5) refl
      known refl

-- A struct without fields is declared nowhere, and a path to it does not resolve.
empty_struct :
    (add_items [] fresh 1 (Scope.struct 1 5) ≡ some fresh)
    × (type_from_path fresh names 1 (5 ∷ []) ≡ fails)
unfolding add_items type_from_path entry_of
empty_struct = (refl, refl)

-- *[3; struct 5]
abbrev pointer_ty : Ty
pointer_ty = ptr (array 3 (path (5 ∷ [])))

names-GlobalsFree : GlobalsFree names
unfolding GlobalsFree
names-GlobalsFree name ty h = absurd (ground arith)

resolve_name-Resolves_example : Resolves (resolve_name declared names 1 pointer_ty)
unfolding resolvable type_from_path entry_of type_of_scope
resolve_name-Resolves_example =
    resolve_name-Resolves declared names 1 pointer_ty names-GlobalsFree refl

pointer_ty-resolved :
    resolve_name declared names 1 pointer_ty
    ≡ ok (ptr (array 3 (struct 5 (cons (generic 9 none) nil))))
unfolding resolve_name type_from_path entry_of type_of_scope
pointer_ty-resolved = refl

visited :
    visit_let (add_to_scope_stack declared (Scope.struct 1 5)) 1 8
    ≡ add_item (add_to_scope_stack declared (Scope.struct 1 5)) 1 (Scope.struct 1 5) (var 8)
unfolding visit_let add_to_scope_stack
visited = refl

-- Trait 0 is implemented for the argument 4.
abbrev imp4 : Impl ℕ ℕ ℕ
imp4 = record { path = 0; type_arguments = 4; method = 40 }

abbrev imp4_again : Impl ℕ ℕ ℕ
imp4_again = record { path = 0; type_arguments = 4; method = 41 }

abbrev solver : TraitSolve ℕ ℕ ℕ ℕ ℕ
solver = record { traits = (0, 100) ∷ []; impls = (0, (4, imp4) ∷ []) ∷ []; proof_stack = [] }

add_impl-Adds_example :
    Adds ℕ_discrete ℕ_discrete imp4_again solver
      (lookup ℕ_discrete 0 solver.traits)
      (add_impl ℕ_discrete ℕ_discrete imp4_again solver)
add_impl-Adds_example = add_impl-Adds ℕ_discrete ℕ_discrete imp4_again solver

-- A second implementation is refused, and it has replaced the first.
add_impl_twice : add_impl ℕ_discrete ℕ_discrete imp4_again solver ≡ (
  record {
    traits = (0, 100) ∷ [];
    impls = (0, (4, imp4_again) ∷ (4, imp4) ∷ []) ∷ (0, (4, imp4) ∷ []) ∷ [];
    proof_stack = [];
  },
  duplicate,
)
unfolding add_impl
add_impl_twice = refl

-- A function node 1 with an enum 2 below it, which has a struct 3 below it, and a struct 4
abbrev dag : GenericParam
dag = param [] (
    child (enum_node 2) (param [] (child (struct_node 3) (param [] leaf) leaf))
      (child (struct_node 4) (param [] leaf) leaf))

child_iter-nodes_below_example :
    (l : List Node) × (child_iter 4 dag ≡ some l)
    × Perm l (enum_node 2 ∷ struct_node 3 ∷ struct_node 4 ∷ [])
unfolding nodes_below
child_iter-nodes_below_example = child_iter-nodes_below 4 dag (omega arith)

-- The children come first, level by level.
dag_order : child_iter 4 dag ≡ some (enum_node 2 ∷ struct_node 4 ∷ struct_node 3 ∷ [])
unfolding child_iter iterate next
dag_order = refl
