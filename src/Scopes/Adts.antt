-- ===== src/Scopes/Adts.antt =====
-- src/typeck/scope.rs, src/typeck.rs: the loops of `visit_adt` that declare a struct or an enum by its
-- fields or variants, and what a path to it then resolves to.
use enumc.Prelude.{ℕ, ◌≡◌, ◌≢◌, refl, sym, ap, subst, ◌∙◌, List, [], ◌∷◌, ◌++◌, Option, none, some}
use mathlib.Core.List.{append-nil, append_assoc}
use enumc.Scopes.Walker.{
  Scope, ident, ItemIn, ScopeWalker, contents_of, push_item, and_then, add_items,
}
use enumc.Scopes.Resolve.{Names, type_of_scope, type_of_entry, entry_of, type_from_path}
use enumc.Scopes.Items.{Sets, add_item-Sets}

-- The name has these items, declared by this parent.
unfoldable pub Holds : ScopeWalker → ℕ → ℕ → Scope → List ItemIn → Type 0
Holds walker file name parent items =
    (contents_of walker file ≢ none)
    × (entry_of walker file name ≡ some (record { parent = parent; items = items }))

unfoldable pub Yields : Option ScopeWalker → ℕ → ℕ → Scope → List ItemIn → Type 0
Yields result file name parent items =
    (walker : ScopeWalker) × (result ≡ some walker) × Holds walker file name parent items

add_items-Yields :
    (items : List ItemIn) (walker : ScopeWalker) (file name : ℕ) (in_scope parent : Scope)
    (old : List ItemIn)
    → ident in_scope ≡ some name
    → Holds walker file name parent old
    → Yields (add_items items walker file in_scope) file name parent (old ++ items)
unfolding add_items Yields Holds Sets
add_items-Yields [] walker file name in_scope parent old named (known, e) = (
  walker,
  refl,
  (known, e ∙ ap (λ l. some (record { parent = parent; items = l })) (sym (append-nil old))),
)
add_items-Yields (item ∷ items) walker file name in_scope parent old named (known, e) =
    let (next, done, entry, known', others) =
      add_item-Sets walker file name in_scope item known named in
    let (walker', finished, holds) =
      add_items-Yields items next file name in_scope parent (old ++ item ∷ []) named
        (known', entry ∙ ap (λ o. some (push_item in_scope item o)) e) in
    (
      walker',
      ap (λ o. and_then o (λ w. add_items items w file in_scope)) done ∙ finished,
      subst (Holds walker' file name parent) (append_assoc old (item ∷ []) items) holds,
    )

-- In a file with a scope, the fields or variants of a struct or enum whose name stands for nothing yet
-- declare it: all are kept, in their order, and a path of the name resolves to what the scope stands for.
-- There has to be at least one.
pub add_items-type_from_path :
    (item : ItemIn) (items : List ItemIn) (walker : ScopeWalker) (names : Names) (file name : ℕ)
    (segs : List ℕ) (in_scope : Scope)
    → ident in_scope ≡ some name
    → contents_of walker file ≢ none
    → entry_of walker file name ≡ none
    → (walker' : ScopeWalker) × (add_items (item ∷ items) walker file in_scope ≡ some walker')
      × Holds walker' file name in_scope (item ∷ items)
      × (type_from_path walker' names file (name ∷ segs) ≡ type_of_scope names in_scope)
unfolding add_items Yields Holds Sets type_from_path
add_items-type_from_path item items walker names file name segs in_scope named known absent =
    let (next, done, entry, known', others) =
      add_item-Sets walker file name in_scope item known named in
    let (walker', finished, (known'', holds)) =
      add_items-Yields items next file name in_scope in_scope (item ∷ []) named
        (known', entry ∙ ap (λ o. some (push_item in_scope item o)) absent) in
    (
      walker',
      ap (λ o. and_then o (λ w. add_items items w file in_scope)) done ∙ finished,
      (known'', holds),
      ap (type_of_entry names) holds,
    )
