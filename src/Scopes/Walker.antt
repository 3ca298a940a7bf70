-- ===== src/Scopes/Walker.antt =====
-- src/typeck/scope.rs: `ScopeWalker`, the declarations of each file and what stands in them. An
-- identifier is the number of its name, a file that of its hash.
use enumc.Prelude.{ℕ, List, [], ◌∷◌, ◌++◌, Option, none, some, lookup, insert, ℕ_discrete}
use enumc.Types.Span.{Range}

pub data Scope : Type 0 where
  trait_ imp func struct enum global : ℕ → ℕ → Scope
  block : Range → Scope

-- `ident`; `none` is the `todo!`.
abbrev pub ident : Scope → Option ℕ
ident (trait_ file name) = some name
ident (imp file name) = some name
ident (func file name) = some name
ident (struct file name) = some name
ident (enum file name) = some name
ident (global file name) = some name
ident (block range) = none

pub data ItemIn : Type 0 where
  var field variant : ℕ → ItemIn

pub record Items : Type 0 where
  pub parent : Scope
  pub items : List ItemIn

abbrev pub ScopeContents : Type 0
ScopeContents = List (ℕ × Items)

pub record ScopeWalker : Type 0 where
  pub global_scope : List (ℕ × ScopeContents)
  -- The top of the stack is first.
  pub scope_stack : List Scope

abbrev pub contents_of : ScopeWalker → ℕ → Option ScopeContents
contents_of walker file = lookup ℕ_discrete file walker.global_scope

abbrev pub set_contents : ScopeWalker → ℕ → ScopeContents → ScopeWalker
set_contents walker file contents = record {
  global_scope = insert ℕ_discrete file contents walker.global_scope;
  scope_stack = walker.scope_stack;
}

unfoldable pub add_file_scope : ScopeWalker → ℕ → ScopeWalker
add_file_scope walker file = set_contents walker file []

-- `add_file_scopes`, of the keys of `files`
unfoldable pub add_file_scopes : ScopeWalker → List ℕ → ScopeWalker
add_file_scopes walker [] = walker
add_file_scopes walker (k ∷ keys) = add_file_scopes (add_file_scope walker k) keys

unfoldable pub add_to_scope_stack : ScopeWalker → Scope → ScopeWalker
add_to_scope_stack walker scope = record {
  global_scope = walker.global_scope;
  scope_stack = scope ∷ walker.scope_stack;
}

abbrev pub without_top : List Scope → List Scope
without_top [] = []
without_top (scope ∷ stack) = stack

unfoldable pub pop_scope_stack : ScopeWalker → ScopeWalker
pop_scope_stack walker = record {
  global_scope = walker.global_scope;
  scope_stack = without_top walker.scope_stack;
}

-- What stands at `decl_ty` once it is declared: no items, whatever stood there
abbrev pub new_items : Scope → Items
new_items parent = record { parent = parent; items = [] }

abbrev pub declare : ScopeWalker → ℕ → Scope → Option ScopeContents → Option ℕ → Option ScopeWalker
declare walker file decl_ty none name = some walker
declare walker file decl_ty (some contents) none = none
declare walker file decl_ty (some contents) (some name) =
    some (set_contents walker file (insert ℕ_discrete name (new_items decl_ty) contents))

-- `none` is the `todo!` of `ident`. A file without a scope is left alone.
unfoldable pub add_decl : ScopeWalker → ℕ → Scope → Option ScopeWalker
add_decl walker file decl_ty = declare walker file decl_ty (contents_of walker file) (ident decl_ty)

-- The entry of a name: pushed to if it is occupied, new if it is vacant
abbrev pub push_item : Scope → ItemIn → Option Items → Items
push_item in_scope item none = record { parent = in_scope; items = item ∷ [] }
push_item in_scope item (some inner) = record {
  parent = inner.parent;
  items = inner.items ++ item ∷ [];
}

abbrev pub add_entry :
    ScopeWalker → ℕ → Scope → ItemIn → Option ScopeContents → Option ℕ → Option ScopeWalker
add_entry walker file in_scope item none name = some walker
add_entry walker file in_scope item (some contents) none = none
add_entry walker file in_scope item (some contents) (some name) = some (
    set_contents walker file
      (insert ℕ_discrete name (push_item in_scope item (lookup ℕ_discrete name contents)) contents))

unfoldable pub add_item : ScopeWalker → ℕ → Scope → ItemIn → Option ScopeWalker
add_item walker file in_scope item =
    add_entry walker file in_scope item (contents_of walker file) (ident in_scope)

abbrev pub and_then : Option ScopeWalker → (ScopeWalker → Option ScopeWalker) → Option ScopeWalker
and_then none next = none
and_then (some walker) next = next walker

-- The items of a declaration, one by one: the loops of `visit_adt` over fields and variants
unfoldable pub add_items : List ItemIn → ScopeWalker → ℕ → Scope → Option ScopeWalker
add_items [] walker file in_scope = some walker
add_items (item ∷ items) walker file in_scope =
    and_then (add_item walker file in_scope item) (λ next. add_items items next file in_scope)

-- `visit_stmt` at a `let` of a name, in the innermost scope; `none` is the panic without one.
abbrev pub let_inside : ScopeWalker → ℕ → ℕ → List Scope → Option ScopeWalker
let_inside walker file name [] = none
let_inside walker file name (scope ∷ stack) = add_item walker file scope (var name)

unfoldable pub visit_let : ScopeWalker → ℕ → ℕ → Option ScopeWalker
visit_let walker file name = let_inside walker file name walker.scope_stack
