-- ===== src/Data/Refines.antt =====
-- `RawVec` is a list: what its operations do to the list that it stands for.
use enumc.Prelude.{
  ℕ, zero, suc, ◌+◌, ◌-◌, ◌≤◌, ◌<◌, ◌≡◌, refl, sym, ap, ◌∙◌, Bool, true, false, List, [], ◌∷◌, ◌++◌,
  Option, none, some, arith, ltb, leb, ◌==◌, length, replicate, Bool-cases, inl, inr,
}
use enumc.Data.RawVec.{
  done, RawVec, power_from, next_power_of_two, with_cap, is_empty, grow, new_size, store, push, pop,
  get, remove,
}
use enumc.Data.Block.{
  filled, lookup, remove_at, length-filled, length-lookup, lookup-++, lookup_beyond, read-filled,
  write-filled, copy-filled, length-remove_at, length-replicate, filled_last, length-++, filled-++,
  length-++_last,
}

-- The vector holds `xs`: its block is as long as its capacity and begins with them.
pub record Represents {A : Type 0} (v : RawVec A) (xs : List A) : Type 0 where
  pub spare : List (Option A)
  pub is_filled : v.slots ≡ filled xs spare
  pub is_len : v.len ≡ length xs
  pub is_cap : v.cap ≡ length v.slots

power_from_ge : (fuel p n : ℕ) → 1 ≤ p → n ≤ p + fuel → n ≤ power_from fuel p n
unfolding power_from
power_from_ge zero p n h k = omega arith
power_from_ge (suc fuel) p n h k =
    let later : n ≤ power_from fuel (p + p) n =
      power_from_ge fuel (p + p) n (omega arith) (omega arith) in
    ground arith

next_power_of_two_ge : (n : ℕ) → n ≤ next_power_of_two n
unfolding next_power_of_two
next_power_of_two_ge n = power_from_ge n 1 n (omega arith) (omega arith)

module _ {A : Type 0} (fits : ℕ → Bool) (size : ℕ) where
  -- Of an index in the vector `get` returns the element there, of another one `None`.
  pub get-lookup :
      (v : RawVec A) (xs : List A) (i : ℕ)
      → Represents v xs
      → get fits size v i ≡ done (lookup i xs)
  unfolding get
  get-lookup v xs i r = elim (Bool-cases (ltb i v.len)) [
    | inl inside ↦
        let (x, e) = length-lookup i xs (ground (arith, r.is_len)) in
        rw (inside, r.is_filled, e, read-filled i xs r.spare x e)
    | inr outside ↦ rw (outside, lookup_beyond i xs (ground (arith, r.is_len)))
  ]

  -- `pop` on an empty vector returns `None`.
  pop-empty : (v : RawVec A) → Represents v [] → pop fits size v ≡ done (none, v)
  unfolding pop is_empty
  pop-empty v r = rw r.is_len

  -- `pop` takes the last element off and returns it.
  pub pop-last :
      (v : RawVec A) (xs : List A) (x : A)
      → Represents v (xs ++ x ∷ [])
      → (w : RawVec A) × (pop fits size v ≡ done (some x, w)) × Represents w xs
  unfolding pop is_empty
  pop-last v xs x r =
      let n = length-++_last xs x in
      let full : (v.len == 0) ≡ false = ground (arith, r.is_len, n) in
      let last : v.len - 1 ≡ length xs = omega (arith, r.is_len, n) in
      (
        record { slots = v.slots; cap = v.cap; len = v.len - 1 },
        rw (
          full,
          last,
          r.is_filled,
          read-filled (length xs) (xs ++ x ∷ []) r.spare x (lookup-++ xs x),
        ),
        record {
          spare = some x ∷ r.spare;
          is_filled = r.is_filled ∙ filled_last xs x r.spare;
          is_len = last;
          is_cap = r.is_cap;
        },
      )

  -- `remove` of an index in the vector returns the element there and leaves the others in order.
  pub remove-remove_at :
      (v : RawVec A) (xs : List A) (i : ℕ)
      → Represents v xs
      → i < length xs
      → (x : A) × (w : RawVec A) × (lookup i xs ≡ some x)
        × (remove fits size v i ≡ done (x, w))
        × Represents w (remove_at i xs)
  unfolding remove
  remove-remove_at v xs i r h =
      let (x, e) = length-lookup i xs h in
      let inside : leb v.len i ≡ false = ground (arith, r.is_len) in
      let (left, c, l) = copy-filled i (v.len - i - 1) xs r.spare (omega (arith, r.is_len)) in
      let shorter = length-remove_at i xs h in
      let all = length-filled xs r.spare in
      let now = length-filled (remove_at i xs) left in
      (
        x,
        record { slots = filled (remove_at i xs) left; cap = v.cap; len = v.len - 1 },
        e,
        rw (inside, r.is_filled, read-filled i xs r.spare x e, c),
        record {
          spare = left;
          is_filled = refl;
          is_len = omega (arith, r.is_len);
          is_cap = r.is_cap ∙ ap length r.is_filled ∙ omega arith;
        },
      )

  abbrev fresh : ℕ → ℕ → RawVec A
  fresh n len = record { slots = replicate n none; cap = n; len = len }

  fresh-Represents :
      (v : RawVec A) (xs : List A) (n : ℕ)
      → Represents v xs
      → v.cap ≡ 0
      → Represents (fresh n v.len) xs
  fresh-Represents v [] n r e = record {
    spare = replicate n none;
    is_filled = refl;
    is_len = r.is_len;
    is_cap = sym (length-replicate A n);
  }
  fresh-Represents v (x ∷ xs) n r e =
      let all = length-filled (x ∷ xs) r.spare in
      let lens = r.is_cap ∙ ap length r.is_filled in absurd (omega arith)

  store-into :
      (v : RawVec A) (xs : List A) (x : A) (spare : List (Option A))
      → v.slots ≡ filled xs spare
      → v.len ≡ length xs
      → v.cap ≡ length v.slots
      → v.len < v.cap
      → (w : RawVec A) × (store fits size x v ≡ done w) × Represents w (xs ++ x ∷ [])
  unfolding store
  store-into v xs x [] e l c h =
      let all = length-filled xs [] in let lens = c ∙ ap length e in absurd (omega arith)
  store-into v xs x (slot ∷ spare) e l c h =
      let all = length-filled xs (slot ∷ spare) in
      let now = length-filled (xs ++ x ∷ []) spare in
      let n = length-++_last xs x in
      let lens = c ∙ ap length e in
      (
        record { slots = filled (xs ++ x ∷ []) spare; cap = v.cap; len = v.len + 1 },
        rw (l, e, write-filled xs slot spare x),
        record { spare = spare; is_filled = refl; is_len = omega arith; is_cap = omega arith },
      )

  -- Growing to more than the capacity keeps the list and leaves room for another element.
  grow-Represents :
      (v : RawVec A) (xs : List A) (n : ℕ)
      → Represents v xs
      → v.cap < n
      → fits n ≡ true
      → (w : RawVec A) × (grow fits size v n ≡ done w) × Represents w xs × (w.len < w.cap)
  unfolding grow
  grow-Represents v xs n r h f = elim (Bool-cases (v.cap == 0)) [
    | inl unallocated ↦
        let positive : ltb 0 n ≡ true = ground arith in
        let all = length-filled xs r.spare in
        let lens = r.is_cap ∙ ap length r.is_filled in
        (
          fresh n v.len,
          rw (unallocated, positive, f),
          fresh-Represents v xs n r (ground arith),
          omega (arith, r.is_len),
        )
    | inr allocated ↦
        let larger : ltb v.cap n ≡ true = ground arith in
        let all = length-filled xs r.spare in
        let lens = r.is_cap ∙ ap length r.is_filled in
        let added = length-++ v.slots (replicate (n - v.cap) none) in
        let new = length-replicate A (n - v.cap) in
        (
          record { slots = v.slots ++ replicate (n - v.cap) none; cap = n; len = v.len },
          rw (allocated, larger, f),
          record {
            spare = r.spare ++ replicate (n - v.cap) none;
            is_filled =
                ap (λ s. s ++ replicate (n - v.cap) none) r.is_filled
                ∙ filled-++ xs r.spare (replicate (n - v.cap) none);
            is_len = r.is_len;
            is_cap = omega (arith, r.is_cap);
          },
          omega (arith, r.is_len),
        )
  ]

  store-Represents :
      (v : RawVec A) (xs : List A) (x : A)
      → Represents v xs
      → v.len < v.cap
      → (w : RawVec A) × (store fits size x v ≡ done w) × Represents w (xs ++ x ∷ [])
  store-Represents v xs x r h = store-into v xs x r.spare r.is_filled r.is_len r.is_cap h

  new_size_gt : (v : RawVec A) → v.len < new_size fits size v
  unfolding new_size is_empty
  new_size_gt v = let power = next_power_of_two_ge (v.len + 1) in ground arith

  -- `push` puts the element behind the others, if the allocator has a block of the new size.
  pub push-append :
      (v : RawVec A) (xs : List A) (x : A)
      → Represents v xs
      → fits (new_size fits size v) ≡ true
      → (w : RawVec A) × (push fits size v x ≡ done w) × Represents w (xs ++ x ∷ [])
  unfolding push
  push-append v xs x r f = elim (Bool-cases (v.len == v.cap)) [
    | inl full ↦
        let grown = new_size_gt v in
        let (u, e, ru, room) = grow-Represents v xs (new_size fits size v) r (ground arith) f in
        let (w, d, held) = store-Represents u xs x ru room in (w, rw (full, e) d, held)
    | inr space ↦
        let all = length-filled xs r.spare in
        let lens = r.is_cap ∙ ap length r.is_filled in
        let (w, d, held) = store-Represents v xs x r (ground (arith, r.is_len)) in
        (w, rw space d, held)
  ]

  -- A vector made with a capacity is empty and has it, if the allocator has a block of that size.
  pub with_cap-empty :
      (cap : ℕ)
      → fits cap ≡ true
      → (w : RawVec A) × (with_cap fits size cap ≡ done w) × Represents w [] × (w.cap ≡ cap)
  unfolding with_cap
  with_cap-empty cap f = elim (Bool-cases (cap == 0)) [
    | inl no_block ↦ (
      record { slots = []; cap = 0; len = 0 },
      rw no_block,
      record { spare = []; is_filled = refl; is_len = refl; is_cap = refl },
      ground arith,
    )
    | inr block ↦ (
      record { slots = replicate cap none; cap = cap; len = 0 },
      rw (block, f),
      record {
        spare = replicate cap none;
        is_filled = refl;
        is_len = refl;
        is_cap = sym (length-replicate A cap);
      },
      refl,
    )
  ]
