-- ===== src/Types/Indirection.antt =====
-- References and pointers: `dereference` and `resolve`.
use enumc.Prelude.{
  ℕ, zero, suc, ◌+◌, ◌-◌, ◌≡◌, refl, sym, ◌∙◌, ap, Bool, true, false, arith, ltb, if◌then◌else◌,
}
use native.Mathlib.Nat.{add-zero, zero-add}
use enumc.Types.Ty.{
  Ty, array, ptr, ref, const_str, dereference, Resolved, ok, fails, peel, resolve_from, resolve,
}

-- `n` pointers around a type
abbrev pub pointers : ℕ → Ty → Ty
pointers zero ty = ty
pointers (suc n) ty = ptr (pointers n ty)

abbrev pub is_ref : Ty → Bool
is_ref (ref t) = true
is_ref _ = false

-- What is neither a reference nor anything that `resolve` peels.
abbrev pub is_leaf : Ty → Bool
is_leaf (ref t) = false
is_leaf (ptr t) = false
is_leaf (array size t) = false
is_leaf (const_str size) = false
is_leaf _ = true

resolve_from-peel : (ty : Ty) (n : ℕ) → is_ref ty ≡ false → resolve_from ty n ≡ peel n ty
unfolding resolve_from
resolve_from-peel (ref t) n h = cc
resolve_from-peel _ n h = refl

resolve_from-dereference :
    (n m : ℕ) (ty : Ty) → resolve_from (dereference ty n) m ≡ resolve_from ty (m + n)
unfolding dereference resolve_from
resolve_from-dereference zero m ty = rw add-zero
resolve_from-dereference (suc n) m ty =
    resolve_from-dereference n m (ref ty) ∙ ap (resolve_from ty) (omega arith)

-- What `n` references leave of `m` pointers
abbrev pub left : ℕ → ℕ → Ty → Resolved
left n m ty = if ltb m n then fails else ok (pointers (m - n) ty)

ltb-zero : (m : ℕ) → ltb m 0 ≡ false
ltb-zero m = ground arith

ltb-zero_suc : (n : ℕ) → ltb 0 (suc n) ≡ true
ltb-zero_suc n = ground arith

ltb-suc : (n m : ℕ) → ltb (suc m) (suc n) ≡ ltb m n
ltb-suc n m = ground arith

sub-suc : (n m : ℕ) → suc m - suc n ≡ m - n
sub-suc n m = omega arith

sub-zero : (m : ℕ) → m - 0 ≡ m
sub-zero m = omega arith

left-zero : (m : ℕ) (ty : Ty) → left 0 m ty ≡ ok (pointers m ty)
left-zero m ty = rw (ltb-zero m, sub-zero m)

left-suc-zero : (n : ℕ) (ty : Ty) → left (suc n) 0 ty ≡ fails
left-suc-zero n ty = rw (ltb-zero_suc n)

left-suc-suc : (n m : ℕ) (ty : Ty) → left (suc n) (suc m) ty ≡ left n m ty
left-suc-suc n m ty = rw (ltb-suc n m, sub-suc n m)

peel-leaf : (n : ℕ) (ty : Ty) → is_leaf ty ≡ true → peel (suc n) ty ≡ fails
unfolding peel
peel-leaf n (ref t) h = cc
peel-leaf n (ptr t) h = cc
peel-leaf n (array size t) h = cc
peel-leaf n (const_str size) h = cc
peel-leaf n _ h = refl

peel-pointers : (n m : ℕ) (ty : Ty) → is_leaf ty ≡ true → peel n (pointers m ty) ≡ left n m ty
unfolding peel
peel-pointers zero m ty h = sym (left-zero m ty)
peel-pointers (suc n) (suc m) ty h = peel-pointers n m ty h ∙ sym (left-suc-suc n m ty)
peel-pointers (suc n) zero ty h = peel-leaf n ty h ∙ sym (left-suc-zero n ty)

pointers-is_ref : (m : ℕ) (ty : Ty) → is_leaf ty ≡ true → is_ref (pointers m ty) ≡ false
pointers-is_ref (suc m) ty h = refl
pointers-is_ref zero (ref t) h = cc
pointers-is_ref zero _ h = refl

-- Let a type that is not a reference, a pointer, an array or a string stand under `m` pointers.
-- Dereferenced `n` times, it resolves to nothing if `m < n`, and else to the type under `m - n`
-- pointers.
pub resolve-dereference :
    (n m : ℕ) (ty : Ty)
    → is_leaf ty ≡ true
    → resolve (dereference (pointers m ty) n)
      ≡ (if ltb m n then fails else ok (pointers (m - n) ty))
unfolding resolve
resolve-dereference n m ty h =
    resolve_from-dereference n 0 (pointers m ty)
    ∙ ap (resolve_from (pointers m ty)) (zero-add n)
    ∙ resolve_from-peel (pointers m ty) n (pointers-is_ref m ty h)
    ∙ peel-pointers n m ty h
