-- ===== src/Data/Tests.antt =====
-- Runs of `RawVec`, and its theorems at concrete vectors.
use enumc.Prelude.{ℕ, ◌≡◌, refl, Bool, true, List, [], ◌∷◌, none, some, arith}
use enumc.Data.RawVec.{
  done, panic, RawVec, power_from, next_power_of_two, read, write, copy, is_empty, grow, new_size,
  store, push, remove,
}
use enumc.Data.Block.{lookup}
use enumc.Data.Refines.{Represents, push-append, remove-remove_at}

-- An allocator that always has a block
abbrev always : ℕ → Bool
always n = true

-- A vector with the elements 1, 2 and 3 and room for another
abbrev three : RawVec ℕ
three = record { slots = some 1 ∷ some 2 ∷ some 3 ∷ none ∷ []; cap = 4; len = 3 }

abbrev elements : List ℕ
elements = 1 ∷ 2 ∷ 3 ∷ []

three-Represents : Represents three elements
three-Represents = record { spare = none ∷ []; is_filled = refl; is_len = refl; is_cap = refl }

-- A full vector, which the next `push` must grow
abbrev two : RawVec ℕ
two = record { slots = some 1 ∷ some 2 ∷ []; cap = 2; len = 2 }

two-Represents : Represents two (1 ∷ 2 ∷ [])
two-Represents = record { spare = []; is_filled = refl; is_len = refl; is_cap = refl }

push_grows :
    push always 8 two 3
    ≡ done (record { slots = some 1 ∷ some 2 ∷ some 3 ∷ none ∷ []; cap = 4; len = 3 })
unfolding push store grow new_size is_empty next_power_of_two power_from write
push_grows = refl

-- The removed element is overwritten, and the last one's place is kept.
remove_middle :
    remove always 8 three 1
    ≡ done (2, record { slots = some 1 ∷ some 3 ∷ some 3 ∷ none ∷ []; cap = 4; len = 2 })
unfolding remove read copy
remove_middle = refl

remove_beyond : remove always 8 three 3 ≡ panic
unfolding remove
remove_beyond = refl

push-append_example :
    (w : RawVec ℕ) × (push always 8 two 3 ≡ done w) × Represents w (1 ∷ 2 ∷ 3 ∷ [])
push-append_example = push-append always 8 two (1 ∷ 2 ∷ []) 3 two-Represents refl

remove-remove_at_example :
    (x : ℕ) × (w : RawVec ℕ) × (lookup 1 elements ≡ some x)
    × (remove always 8 three 1 ≡ done (x, w))
    × Represents w (1 ∷ 3 ∷ [])
remove-remove_at_example = remove-remove_at always 8 three elements 1 three-Represents (omega arith)
