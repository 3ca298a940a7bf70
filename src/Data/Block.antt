-- ===== src/Data/Block.antt =====
-- Blocks that begin with the elements of a list: `read`, `write` and `copy` on them.
use enumc.Prelude.{
  ℕ, zero, suc, ◌+◌, ◌≤◌, ◌<◌, ◌≡◌, refl, ap, List, [], ◌∷◌, ◌++◌, Option, none, some, arith,
  length, replicate,
}
use enumc.Data.RawVec.{done, read, write, copy, prepend}

module _ {A : Type 0} where
  abbrev pub filled : List A → List (Option A) → List (Option A)
  filled [] spare = spare
  filled (x ∷ xs) spare = some x ∷ filled xs spare

  -- The element at a place
  abbrev pub lookup : ℕ → List A → Option A
  lookup i [] = none
  lookup zero (x ∷ xs) = some x
  lookup (suc i) (x ∷ xs) = lookup i xs

  abbrev pub remove_at : ℕ → List A → List A
  remove_at i [] = []
  remove_at zero (x ∷ xs) = xs
  remove_at (suc i) (x ∷ xs) = x ∷ remove_at i xs

  pub length-filled :
      (xs : List A) (spare : List (Option A)) → length (filled xs spare) ≡ length xs + length spare
  length-filled [] spare = omega arith
  length-filled (x ∷ xs) spare = omega (arith, length-filled xs spare)

  pub length-lookup : (i : ℕ) (xs : List A) → i < length xs → (x : A) × (lookup i xs ≡ some x)
  length-lookup i [] h = absurd (omega arith)
  length-lookup zero (x ∷ xs) h = (x, refl)
  length-lookup (suc i) (x ∷ xs) h = length-lookup i xs (omega arith)

  pub lookup_beyond : (i : ℕ) (xs : List A) → length xs ≤ i → lookup i xs ≡ none
  lookup_beyond i [] h = refl
  lookup_beyond zero (x ∷ xs) h = absurd (omega arith)
  lookup_beyond (suc i) (x ∷ xs) h = lookup_beyond i xs (omega arith)

  pub lookup-++ : (xs : List A) (x : A) → lookup (length xs) (xs ++ x ∷ []) ≡ some x
  lookup-++ [] x = refl
  lookup-++ (y ∷ xs) x = lookup-++ xs x

  pub read-filled :
      (i : ℕ) (xs : List A) (spare : List (Option A)) (x : A)
      → lookup i xs ≡ some x
      → read i (filled xs spare) ≡ done x
  unfolding read
  read-filled i [] spare x h = cc
  read-filled zero (y ∷ xs) spare x h = cc
  read-filled (suc i) (y ∷ xs) spare x h = read-filled i xs spare x h

  pub write-filled :
      (xs : List A) (slot : Option A) (spare : List (Option A)) (x : A)
      → write (length xs) x (filled xs (slot ∷ spare)) ≡ done (filled (xs ++ x ∷ []) spare)
  unfolding write
  write-filled [] slot spare x = refl
  write-filled (y ∷ xs) slot spare x = ap (prepend (some y)) (write-filled xs slot spare x)

  -- Copying the later elements of the list over one removes it, and leaves a slot more behind them.
  pub copy-filled :
      (i count : ℕ) (xs : List A) (spare : List (Option A))
      → length xs ≡ suc (i + count)
      → (left : List (Option A)) × (copy i count (filled xs spare)
          ≡ done (filled (remove_at i xs) left))
        × (length left ≡ suc (length spare))
  unfolding copy
  copy-filled i count [] spare h = absurd (omega arith)
  copy-filled zero zero (x ∷ []) spare h = (some x ∷ spare, refl, refl)
  copy-filled zero zero (x ∷ y ∷ xs) spare h = absurd (omega arith)
  copy-filled zero (suc count) (x ∷ []) spare h = absurd (omega arith)
  copy-filled zero (suc count) (x ∷ y ∷ xs) spare h =
      let (left, e, l) = copy-filled zero count (y ∷ xs) spare (omega arith) in
      (left, ap (prepend (some y)) e, l)
  copy-filled (suc i) count (x ∷ xs) spare h =
      let (left, e, l) = copy-filled i count xs spare (omega arith) in
      (left, ap (prepend (some x)) e, l)

  pub length-remove_at :
      (i : ℕ) (xs : List A) → i < length xs → length xs ≡ suc (length (remove_at i xs))
  length-remove_at i [] h = absurd (omega arith)
  length-remove_at zero (x ∷ xs) h = refl
  length-remove_at (suc i) (x ∷ xs) h = ap suc (length-remove_at i xs (omega arith))

pub length-replicate : (A : Type 0) (n : ℕ) → length {A = Option A} (replicate n none) ≡ n
length-replicate A zero = refl
length-replicate A (suc n) = ap suc (length-replicate A n)

module _ {A : Type 0} where
  pub filled_last :
      (xs : List A) (x : A) (spare : List (Option A))
      → filled (xs ++ x ∷ []) spare ≡ filled xs (some x ∷ spare)
  filled_last [] x spare = refl
  filled_last (y ∷ xs) x spare = ap (◌∷◌ (some y)) (filled_last xs x spare)

  pub length-++ : (xs ys : List (Option A)) → length (xs ++ ys) ≡ length xs + length ys
  length-++ [] ys = omega arith
  length-++ (x ∷ xs) ys = omega (arith, length-++ xs ys)

  pub filled-++ : (xs : List A) (s t : List (Option A)) → filled xs s ++ t ≡ filled xs (s ++ t)
  filled-++ [] s t = refl
  filled-++ (x ∷ xs) s t = ap (◌∷◌ (some x)) (filled-++ xs s t)

  pub length-++_last : (xs : List A) (x : A) → length (xs ++ x ∷ []) ≡ length xs + 1
  length-++_last [] x = refl
  length-++_last (y ∷ xs) x = omega (arith, length-++_last xs x)
