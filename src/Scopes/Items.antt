-- ===== src/Scopes/Items.antt =====
-- src/typeck/scope.rs: what a declaration and its items change: the entry of one name of one file.
use enumc.Prelude.{
  ℕ, ◌≡◌, ◌≢◌, ◌⊎◌, inl, inr, refl, sym, ap, ◌∙◌, subst, Bool, false, ◌&&◌, ◌==◌, ==_refl,
  if◌then◌else◌, Option, none, some, arith, lookup, insert, lookup-insert, lookup-insert_other,
  ℕ_discrete, Option-cases,
}
use enumc.Scopes.Walker.{
  Scope, ident, ItemIn, Items, ScopeContents, ScopeWalker, contents_of, set_contents, new_items,
  add_decl, push_item, add_item,
}
use enumc.Scopes.Resolve.{entry_in, entry_of}

-- The entry of a name of the file that is set
entry_of-set_contents :
    (walker : ScopeWalker) (file item : ℕ) (contents : ScopeContents)
    → entry_of (set_contents walker file contents) file item ≡ lookup ℕ_discrete item contents
unfolding entry_of
entry_of-set_contents walker file item contents =
    ap (entry_in item) (lookup-insert ℕ_discrete file contents walker.global_scope)

-- The entries of other names and files are kept.
entry_of-others :
    (walker : ScopeWalker) (file name : ℕ) (items : Items) (contents : ScopeContents)
    → contents_of walker file ≡ some contents
    → (other item : ℕ) → (other ≢ file) ⊎ (item ≢ name)
    → entry_of (set_contents walker file (insert ℕ_discrete name items contents)) other item
      ≡ entry_of walker other item
unfolding entry_of
entry_of-others walker file name items contents known other item (inl n) = ap (entry_in item) (
    lookup-insert_other ℕ_discrete file other (insert ℕ_discrete name items contents)
      walker.global_scope n)
entry_of-others walker file name items contents known other item (inr n) =
    elim (ℕ_discrete other file) [
      | yes e ↦
          subst
            (λ o.
              entry_of (set_contents walker file (insert ℕ_discrete name items contents)) o item
              ≡ entry_of walker o item)
            (sym e)
            (entry_of-set_contents walker file item (insert ℕ_discrete name items contents)
              ∙ lookup-insert_other ℕ_discrete name item items contents n
              ∙ sym (ap (entry_in item) known))
      | no d ↦ ap (entry_in item) (
          lookup-insert_other ℕ_discrete file other (insert ℕ_discrete name items contents)
            walker.global_scope d)
    ]

==-false : (a b : ℕ) → a ≢ b → (a == b) ≡ false
==-false a b n = ground arith

&&-false : (b : Bool) → (b && false) ≡ false
&&-false b = ground arith

-- The entries of `walker'` are those of `walker`, but for one name of one file, which has `items`.
unfoldable pub Overrides : ScopeWalker → ℕ → ℕ → Items → ScopeWalker → Type 0
Overrides walker file name items walker' =
    (other item : ℕ)
    → entry_of walker' other item
      ≡ (if other == file && item == name then some items else entry_of walker other item)

set_contents-Overrides :
    (walker : ScopeWalker) (file name : ℕ) (items : Items) (contents : ScopeContents)
    → contents_of walker file ≡ some contents
    → Overrides walker file name items
        (set_contents walker file (insert ℕ_discrete name items contents))
unfolding Overrides
set_contents-Overrides walker file name items contents known other item =
    elim (ℕ_discrete other file) [
      | no n ↦
          rw (==-false other file n)
            (entry_of-others walker file name items contents known other item (inl n))
      | yes e ↦ elim (ℕ_discrete item name) [
        | no n ↦
            rw (==-false item name n, &&-false (other == file))
              (entry_of-others walker file name items contents known other item (inr n))
        | yes f ↦
            rw (e, f, ==_refl file, ==_refl name)
              (entry_of-set_contents walker file name (insert ℕ_discrete name items contents)
                ∙ lookup-insert ℕ_discrete name items contents)
      ]
    ]

-- The entry is set and all others are kept, in a file that still has a scope.
unfoldable pub Sets : ScopeWalker → ℕ → ℕ → Items → Option ScopeWalker → Type 0
Sets walker file name items result =
    (walker' : ScopeWalker) × (result ≡ some walker')
    × (entry_of walker' file name ≡ some items)
    × (contents_of walker' file ≢ none)
    × Overrides walker file name items walker'

set_contents-Sets :
    (walker : ScopeWalker) (file name : ℕ) (items : Items) (contents : ScopeContents)
    → contents_of walker file ≡ some contents
    → Sets walker file name items
        (some (set_contents walker file (insert ℕ_discrete name items contents)))
unfolding Sets
set_contents-Sets walker file name items contents known = (
  set_contents walker file (insert ℕ_discrete name items contents),
  refl,
  entry_of-set_contents walker file name (insert ℕ_discrete name items contents)
      ∙ lookup-insert ℕ_discrete name items contents,
  (λ e.
      let found =
        lookup-insert ℕ_discrete file (insert ℕ_discrete name items contents) walker.global_scope in
      absurd (ground arith)),
  set_contents-Overrides walker file name items contents known,
)

-- In a file with a scope, `add_decl` of a scope with a name succeeds: the name now stands for the
-- declaration, without items, and the entries of all other names and files are what they were.
pub add_decl-Sets :
    (walker : ScopeWalker) (file name : ℕ) (decl_ty : Scope)
    → contents_of walker file ≢ none
    → ident decl_ty ≡ some name
    → Sets walker file name (new_items decl_ty) (add_decl walker file decl_ty)
unfolding add_decl
add_decl-Sets walker file name decl_ty known named = elim (Option-cases (contents_of walker file)) [
  | inl e ↦ absurd (known e)
  | inr (contents, e) ↦
      rw (e, named) (set_contents-Sets walker file name (new_items decl_ty) contents e)
]

-- In a file with a scope, `add_item` succeeds: the item is the last of its scope's name, which is
-- declared by the item if it was not, and the entries of all other names and files are what they were.
pub add_item-Sets :
    (walker : ScopeWalker) (file name : ℕ) (in_scope : Scope) (item : ItemIn)
    → contents_of walker file ≢ none
    → ident in_scope ≡ some name
    → Sets walker file name
        (push_item in_scope item (entry_of walker file name))
        (add_item walker file in_scope item)
unfolding add_item entry_of
add_item-Sets walker file name in_scope item known named =
    elim (Option-cases (contents_of walker file)) [
      | inl e ↦ absurd (known e)
      | inr (contents, e) ↦
          rw (e, named)
            (set_contents-Sets walker file name
              (push_item in_scope item (lookup ℕ_discrete name contents)) contents e)
    ]
