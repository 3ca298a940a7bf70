-- ===== src/Data/RawVec.antt =====
-- src/data_struc/rawvec.rs: `RawVec`, a vector over memory that it allocates itself.
use enumc.Prelude.{
  ℕ, zero, suc, ◌+◌, ◌-◌, Bool, ◌&&◌, List, [], ◌∷◌, ◌++◌, Option, none, some, ltb, leb, ◌==◌,
  if◌then◌else◌, replicate,
}

-- What an operation does: it returns, panics, or reads or writes memory that it must not.
pub data Run (A : Type 0) : Type 0 where
  done : A → Run A
  panic undefined : Run A

-- The least power of two from `p` on, of the powers `p * 2 ^ k`, that is at least `n`.
unfoldable pub power_from : ℕ → ℕ → ℕ → ℕ
power_from zero p n = p
power_from (suc fuel) p n = let rest = power_from fuel (p + p) n in if leb n p then p else rest

-- `usize::next_power_of_two`, below its overflow
unfoldable pub next_power_of_two : ℕ → ℕ
next_power_of_two n = power_from n 1 n

module _ {A B : Type 0} where
  abbrev pub bind : Run A → (A → Run B) → Run B
  bind (done a) f = f a
  bind panic f = panic
  bind undefined f = undefined

module _ {A : Type 0} where
  -- A slot of the block, of a place that was never written, or out of the block: only the first may
  -- be read.
  unfoldable pub read : ℕ → List (Option A) → Run A
  read i [] = undefined
  read zero (none ∷ slots) = undefined
  read zero (some a ∷ slots) = done a
  read (suc i) (slot ∷ slots) = read i slots

  abbrev pub prepend : Option A → Run (List (Option A)) → Run (List (Option A))
  prepend slot (done slots) = done (slot ∷ slots)
  prepend slot panic = panic
  prepend slot undefined = undefined

  unfoldable pub write : ℕ → A → List (Option A) → Run (List (Option A))
  write i a [] = undefined
  write zero a (slot ∷ slots) = done (some a ∷ slots)
  write (suc i) a (slot ∷ slots) = prepend slot (write i a slots)

  -- `ptr::copy` of `count` slots behind the slot `i` by one place towards the front
  unfoldable pub copy : ℕ → ℕ → List (Option A) → Run (List (Option A))
  copy i count [] = undefined
  copy zero zero (slot ∷ slots) = done (slot ∷ slots)
  copy zero (suc count) (slot ∷ []) = undefined
  copy zero (suc count) (slot ∷ next ∷ slots) = prepend next (copy zero count (next ∷ slots))
  copy (suc i) count (slot ∷ slots) = prepend slot (copy i count slots)

-- `slots` is the block behind `ptr`. A type of size 0, which has no block, is left out.
pub record RawVec (A : Type 0) : Type 0 where
  pub slots : List (Option A)
  pub cap : ℕ
  pub len : ℕ

-- `fits n`: the allocator gives a block for `n` elements. `size` is the size of an element.
module _ {A : Type 0} (fits : ℕ → Bool) (size : ℕ) where
  unfoldable pub with_cap : ℕ → Run (RawVec A)
  with_cap cap =
      if cap == 0
      then done (record { slots = []; cap = 0; len = 0 })
      else if fits cap
      then done (record { slots = replicate cap none; cap = cap; len = 0 })
      else panic

  unfoldable pub is_empty : RawVec A → Bool
  is_empty v = v.len == 0

  unfoldable pub grow : RawVec A → ℕ → Run (RawVec A)
  grow v cap =
      if v.cap == 0 && ltb 0 cap
      then (if fits cap
          then done (record { slots = replicate cap none; cap = cap; len = v.len })
          else panic)
      else if ltb v.cap cap
      then (if fits cap
          then done
              (record { slots = v.slots ++ replicate (cap - v.cap) none; cap = cap; len = v.len })
          else panic)
      else done v

  -- The capacity that `push_shared` asks for.
  unfoldable pub new_size : RawVec A → ℕ
  new_size v =
      if is_empty v then (if ltb size 1024 then 4 else 8) else next_power_of_two (v.len + 1)

  -- `ptr::write` behind the last element
  unfoldable pub store : A → RawVec A → Run (RawVec A)
  store item v =
      bind (write v.len item v.slots)
        (λ s. done (record { slots = s; cap = v.cap; len = v.len + 1 }))

  unfoldable pub push : RawVec A → A → Run (RawVec A)
  push v item = bind (if v.len == v.cap then grow v (new_size v) else done v) (store item)

  -- `ptr::read` leaves the slot as it is.
  unfoldable pub pop : RawVec A → Run (Option A × RawVec A)
  pop v =
      if is_empty v
      then done (none, v)
      else bind (read (v.len - 1) v.slots)
          (λ a. done (some a, record { slots = v.slots; cap = v.cap; len = v.len - 1 }))

  unfoldable pub get : RawVec A → ℕ → Run (Option A)
  get v idx = if ltb idx v.len then bind (read idx v.slots) (λ a. done (some a)) else done none

  unfoldable pub remove : RawVec A → ℕ → Run (A × RawVec A)
  remove v index =
      if leb v.len index
      then panic
      else bind (read index v.slots) (λ ret.
        bind (copy index (v.len - index - 1) v.slots)
          (λ s. done (ret, record { slots = s; cap = v.cap; len = v.len - 1 })))
