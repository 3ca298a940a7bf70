-- ===== src/Parser/Interner.antt =====
-- src/ast/parse/symbol.rs: the `Interner`, which numbers the names of a program. A name is the list
-- of its characters. The hash map is a list of its entries; the buffers that keep the texts alive
-- are left out, and the copy that `alloc` makes of a name is the name.
pub mod Laws
use enumc.Prelude.{
  ℕ, zero, suc, ◌+◌, ◌%◌, ◌^◌, Bool, true, false, List, [], ◌∷◌, ◌++◌, Option, none, some, ◌==◌,
  ◌&&◌, if◌then◌else◌, length,
}
use enumc.Data.Block.{lookup}

abbrev pub Name : Type 0
Name = List ℕ

unfoldable pub same : Name → Name → Bool
same [] [] = true
same (x ∷ a) (y ∷ b) = x == y && same a b
same _ _ = false

-- The entry of a key in the map
unfoldable pub find : Name → List (Name × ℕ) → Option ℕ
find name [] = none
find name ((key, id) ∷ map) = if same key name then some id else find name map

-- `insert` replaces the entry of the key, if there is one.
unfoldable pub insert : Name → ℕ → List (Name × ℕ) → List (Name × ℕ)
insert name id [] = (name, id) ∷ []
insert name id ((key, old) ∷ map) =
    if same key name then (name, id) ∷ map else (key, old) ∷ insert name id map

pub record Interner : Type 0 where
  pub map : List (Name × ℕ)
  pub vec : List Name

-- The `collect` of the numbered names
unfoldable pub collect : ℕ → List Name → List (Name × ℕ) → List (Name × ℕ)
collect id [] map = map
collect id (name ∷ stuff) map = collect (id + 1) stuff (insert name (id % 2 ^ 32) map)

unfoldable pub pre_load : List Name → Interner
pre_load stuff = record { map = collect 0 stuff []; vec = stuff }

unfoldable pub intern : Interner → Name → ℕ × Interner
intern s name = elim (find name s.map) [
  | some id ↦ (id, s)
  | none ↦
      let id = length s.map % 2 ^ 32 in
      (id, record { map = insert name id s.map; vec = s.vec ++ name ∷ [] })
]

unfoldable pub lookup_tkn : Interner → Name → Option ℕ
lookup_tkn s id = find id s.map

-- `none` is the panic of an index out of bounds.
unfoldable pub lookup_str : Interner → ℕ → Option Name
lookup_str s id = lookup id s.vec
