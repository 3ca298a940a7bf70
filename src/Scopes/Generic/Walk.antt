-- ===== src/Scopes/Generic/Walk.antt =====
-- src/typeck/generic.rs: `child_iter` visits every dependent node.
use mathlib.Core.List.Perm
use mathlib.Core.List.{Perm, perm_append_comm, append_assoc}
use enumc.Prelude.{
  ℕ, zero, suc, ◌+◌, ◌≤◌, ◌<◌, ◌≡◌, refl, sym, ap, subst, ◌∙◌, List, [], ◌∷◌, ◌++◌, Option, some,
  arith, length,
}
use enumc.Scopes.Generic.{
  Node, GenericParam, param, Children, leaf, child, children_of, to_list, pop_front, next, prepend,
  yield_with, iterate, child_iter,
}

-- All the nodes below a node, each in front of those below it
unfoldable mutual
  pub nodes_below : GenericParam → List Node
  nodes_below (param generics children) = nodes_of children

  pub nodes_of : Children → List Node
  nodes_of leaf = []
  nodes_of (child node gp children) = node ∷ (nodes_below gp ++ nodes_of children)

-- The nodes that are waiting, with all below them
abbrev waiting : List (Node × GenericParam) → List Node
waiting [] = []
waiting (entry ∷ stack) = entry.0 ∷ (nodes_below entry.1 ++ waiting stack)

waiting-append : (a b : List (Node × GenericParam)) → waiting (a ++ b) ≡ waiting a ++ waiting b
waiting-append [] b = refl
waiting-append (entry ∷ a) b =
    ap (λ l. entry.0 ∷ (nodes_below entry.1 ++ l)) (waiting-append a b)
    ∙ ap (λ l. entry.0 ∷ l) (sym (append_assoc (nodes_below entry.1) (waiting a) (waiting b)))

waiting-to_list : (children : Children) → waiting (to_list children) ≡ nodes_of children
unfolding nodes_of
waiting-to_list leaf = refl
waiting-to_list (child node gp children) =
    ap (λ l. node ∷ (nodes_below gp ++ l)) (waiting-to_list children)

waiting-children : (gp : GenericParam) → waiting (to_list (children_of gp)) ≡ nodes_below gp
unfolding nodes_below
waiting-children (param generics children) = waiting-to_list children

length-append : {A : Type 0} (a b : List A) → length (a ++ b) ≡ length a + length b
length-append [] b = omega arith
length-append (x ∷ a) b = let rest = length-append a b in omega arith

-- What waits once the children of a node are at the end of the queue
waiting-queue :
    (gp : GenericParam) (stack : List (Node × GenericParam))
    → waiting (stack ++ to_list (children_of gp)) ≡ waiting stack ++ nodes_below gp
waiting-queue gp stack =
    waiting-append stack (to_list (children_of gp))
    ∙ ap (λ l. waiting stack ++ l) (waiting-children gp)

-- The nodes are yielded, on this fuel.
unfoldable pub Yields : Option (List Node) → List Node → Type 0
Yields result nodes = (l : List Node) × (result ≡ some l) × Perm l nodes

yield_with-Yields :
    (fuel : ℕ) (queue : List (Node × GenericParam))
    → length (waiting queue) ≤ fuel
    → Yields (yield_with (iterate fuel) (pop_front queue)) (waiting queue)
unfolding Yields iterate next
yield_with-Yields fuel [] le = ([], refl, Perm.refl [])
yield_with-Yields zero (entry ∷ stack) le = absurd (omega arith)
yield_with-Yields (suc fuel) (entry ∷ stack) le =
    let below = length-append (nodes_below entry.1) (waiting stack) in
    let queued = length-append (waiting stack) (nodes_below entry.1) in
    let equal = waiting-queue entry.1 stack in
    let lengths = ap (λ l. length l) equal in
    let (l, e, perm) =
      yield_with-Yields fuel (stack ++ to_list (children_of entry.1)) (omega arith) in
    (
      entry.0 ∷ l,
      ap (prepend entry.0) e,
      Perm.cons entry.0 (
          Perm.trans (subst (Perm l) equal perm)
            (perm_append_comm (waiting stack) (nodes_below entry.1))),
    )

-- The walk over what depends on a declaration ends, and it yields every node below it exactly as often as
-- it stands there. One more than the number of the nodes is fuel enough.
pub child_iter-nodes_below :
    (fuel : ℕ) (gp : GenericParam)
    → length (nodes_below gp) < fuel
    → (l : List Node) × (child_iter fuel gp ≡ some l) × Perm l (nodes_below gp)
unfolding child_iter iterate next Yields
child_iter-nodes_below zero gp less = absurd (omega arith)
child_iter-nodes_below (suc fuel) gp less =
    let equal = waiting-queue gp [] in
    let lengths = ap (λ l. length l) equal in
    let (l, e, perm) = yield_with-Yields fuel (to_list (children_of gp)) (omega arith) in
    (l, e, subst (Perm l) equal perm)
