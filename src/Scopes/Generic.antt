-- ===== src/Scopes/Generic.antt =====
-- src/typeck/generic.rs: the generic parameters of functions, structs and enums with what depends on
-- them, and the walk over them. What was resolved at a use is of any type.
pub mod Walk
use enumc.Prelude.{
  ℕ, zero, suc, List, [], ◌∷◌, ◌++◌, Option, none, some, lookup, insert, ℕ_discrete,
}
use enumc.Types.Ty.{
  Ty, generic, array, struct, enum, path, ptr, ref, const_str, int, char, float, bool, void, bottom,
  func, Types, nil, cons,
}

pub data Node : Type 0 where
  func_node trait_node enum_node struct_node builtin_node : ℕ → Node

-- `GenericParam`: its generics with their bounds, and its children
mutual
  pub data GenericParam : Type 0 where
    param : List (ℕ × Option (List ℕ)) → Children → GenericParam

  pub data Children : Type 0 where
    leaf : Children
    child : Node → GenericParam → Children → Children

abbrev pub generics_of : GenericParam → List (ℕ × Option (List ℕ))
generics_of (param generics children) = generics

abbrev pub children_of : GenericParam → Children
children_of (param generics children) = children

abbrev pub to_list : Children → List (Node × GenericParam)
to_list leaf = []
to_list (child node gp children) = (node, gp) ∷ to_list children

-- `insert_generic`
abbrev pub insert_generic : ℕ → Option (List ℕ) → GenericParam → GenericParam
insert_generic id bound (param generics children) =
    param (insert ℕ_discrete id bound generics) children

-- The front of the queue
abbrev pub pop_front :
    List (Node × GenericParam) → Option (Node × GenericParam × List (Node × GenericParam))
pop_front [] = none
pop_front (next ∷ stack) = some (next.0, next.1, stack)

-- `next` of `GenericParamIter`, whose state is `curr` and `stack`
unfoldable pub next :
    GenericParam
    → List (Node × GenericParam)
    → Option (Node × GenericParam × List (Node × GenericParam))
next curr stack = pop_front (stack ++ to_list (children_of curr))

abbrev pub prepend : Node → Option (List Node) → Option (List Node)
prepend node none = none
prepend node (some nodes) = some (node ∷ nodes)

-- What the iterator yields, where `again` is the rest of it
abbrev pub yield_with :
    (GenericParam → List (Node × GenericParam) → Option (List Node))
    → Option (Node × GenericParam × List (Node × GenericParam))
    → Option (List Node)
yield_with again none = some []
yield_with again (some (node, curr, stack)) = prepend node (again curr stack)

-- All that the iterator yields, on fuel; `none` if that runs out.
unfoldable pub iterate : ℕ → GenericParam → List (Node × GenericParam) → Option (List Node)
iterate zero curr stack = none
iterate (suc fuel) curr stack = yield_with (iterate fuel) (next curr stack)

-- `child_iter`
unfoldable pub child_iter : ℕ → GenericParam → Option (List Node)
child_iter fuel gp = iterate fuel gp []
