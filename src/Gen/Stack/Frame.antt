-- ===== src/Gen/Stack/Frame.antt =====
-- src/gen/asm.rs: the emitted code lowers `rsp` by the size of a variable, and the variables of a
-- frame do not overlap.
use enumc.Prelude.{
  ℕ, ◌+◌, ◌≤◌, ◌≡◌, refl, sym, ap, ap₂, ◌∙◌, subst, Bool, true, false, ◌&&◌, List, [], ◌∷◌, ◌++◌,
  Option, none, some, arith,
}
use enumc.Lir.Isize.{pos}
use enumc.Lir.Val
use enumc.Lir.Op.{BinOp}
use enumc.Lir.Layout.{
  Ty, generic, array, struct, enum, func, ptr, ref, const_str, int, char, float, bool, void, bottom,
  Types, nil, cons, Variants, none_left, variant, size, sum_sizes, max_variants, null_val,
  add_option, times_option, max_option, larger,
}
use enumc.Gen.Inst.{rsp, register, const, Instruction, push, math}
use enumc.Gen.Stack.{
  lower_rsp, lower_by, larger_variant, largest_variant, append_code, push_stack, push_fields,
}

-- The bytes by which an instruction lowers `rsp`: a push lowers it by 8, and `sub rsp, n` by n.
unfoldable pub lowered_by : Instruction → ℕ
lowered_by (push loc n) = 8
lowered_by (math (const (Val.int (pos n))) (register rsp) BinOp.sub) = n
lowered_by _ = 0

unfoldable pub lowered : List Instruction → ℕ
lowered [] = 0
lowered (inst ∷ code) = lowered_by inst + lowered code

pub lowered-append : (a b : List Instruction) → lowered (a ++ b) ≡ lowered a + lowered b
unfolding lowered
lowered-append [] b = omega arith
lowered-append (inst ∷ a) b = let rest = lowered-append a b in omega arith

-- The types of variables: not `void`, a function, a reference or what is not monomorphic, and no enum
-- without variants, alone or as a field.
unfoldable mutual
  pub storable : Ty → Bool
  storable (struct ident gen fields) = storable_all fields
  storable (enum ident gen none_left) = false
  storable void = false
  storable (func ident params ret) = false
  storable (ref ty) = false
  storable (generic ident bound) = false
  storable bottom = false
  storable _ = true

  pub storable_all : Types → Bool
  storable_all nil = true
  storable_all (cons ty tys) = storable ty && storable_all tys

-- An operation on sizes that returns had two sizes.
add_option-some :
    (a b : Option ℕ) (n : ℕ)
    → add_option a b ≡ some n
    → (x : ℕ) × (y : ℕ) × (a ≡ some x) × (b ≡ some y) × (n ≡ x + y)
add_option-some none b n h = absurd (ground arith)
add_option-some (some x) none n h = absurd (ground arith)
add_option-some (some x) (some y) n h = (x, y, refl, refl, ground arith)

max_option-some :
    (a b : Option ℕ) (n : ℕ)
    → max_option a b ≡ some n
    → (x : ℕ) × (y : ℕ) × (a ≡ some x) × (b ≡ some y) × (n ≡ larger x y)
max_option-some none b n h = absurd (ground arith)
max_option-some (some x) none n h = absurd (ground arith)
max_option-some (some x) (some y) n h = (x, y, refl, refl, ground arith)

larger-tag : (l x y : ℕ) → larger (larger l (x + 8)) (y + 8) ≡ larger l (larger x y + 8)
larger-tag l x y = ground arith

larger_first : (x y : ℕ) → larger (larger 0 (x + 8)) (y + 8) ≡ 8 + larger x y
larger_first x y = ground arith

-- The loop over the variants finds the larger of its start and the largest variant with its tag.
largest_variant-max :
    (l : ℕ) (variants : Variants) (m : ℕ)
    → 8 ≤ l
    → max_variants variants ≡ some m
    → largest_variant (some l) variants ≡ some (larger l (m + 8))
unfolding largest_variant max_variants
largest_variant-max l none_left m le h = ground arith
largest_variant-max l (variant tys variants) m le h =
    let (x, y, sum, max, m-eq) = max_option-some (sum_sizes tys) (max_variants variants) m h in
    ap (λ o. largest_variant (larger_variant l (add_option o (some 8))) variants) sum
    ∙ largest_variant-max (larger l (x + 8)) variants y (ground arith) max
    ∙ ap some (larger-tag l x y ∙ ap (λ k. larger l (k + 8)) (sym m-eq))

largest_variant-size :
    (tys : Types) (variants : Variants) (n : ℕ)
    → add_option (some 8) (max_variants (variant tys variants)) ≡ some n
    → largest_variant (some 0) (variant tys variants) ≡ some n
unfolding largest_variant max_variants
largest_variant-size tys variants n h =
    let (eight, m, e, max, n-eq) =
      add_option-some (some 8) (max_variants (variant tys variants)) n h in
    let (x, y, sum, rest, m-eq) = max_option-some (sum_sizes tys) (max_variants variants) m max in
    let eight-eq : 8 ≡ eight = ground arith in
    ap (λ o. largest_variant (larger_variant 0 (add_option o (some 8))) variants) sum
    ∙ largest_variant-max (larger 0 (x + 8)) variants y (ground arith) rest
    ∙ ap some (larger_first x y ∙ ap₂ (λ i j. i + j) eight-eq (sym m-eq) ∙ sym n-eq)

-- `code` is emitted and lowers `rsp` by `n`.
unfoldable pub Lowers : Option (List Instruction) → ℕ → Type 0
Lowers emitted n = (code : List Instruction) × (emitted ≡ some code) × (lowered code ≡ n)

lower_by-Lowers : (o : Option ℕ) (n : ℕ) → o ≡ some n → Lowers (lower_by o) n
unfolding Lowers lowered lowered_by
lower_by-Lowers o n h = rw h (lower_rsp n ∷ [], refl, omega arith)

append_code-Lowers :
    (a b : Option (List Instruction)) (m n : ℕ)
    → Lowers a m
    → Lowers b n
    → Lowers (append_code a b) (m + n)
unfolding Lowers
append_code-Lowers a b m n (x, e, f) (y, g, h) =
    rw (e, g) (x ++ y, refl, lowered-append x y ∙ ap₂ (λ i j. i + j) f h)

null-Lowers : (n : ℕ) → some 8 ≡ some n → Lowers (some (push (const (Val.int (pos 0))) 8 ∷ [])) n
unfolding Lowers lowered lowered_by
null-Lowers n h = (push (const (Val.int (pos 0))) 8 ∷ [], refl, ground arith)

both : (a b : Bool) → (a && b) ≡ true → (a ≡ true) × (b ≡ true)
both a b h = (ground arith, ground arith)

mutual
  unfolding storable storable_all size sum_sizes push_stack push_fields null_val Lowers lowered

  Lowers-push_stack :
      (ty : Ty) (n : ℕ) → storable ty ≡ true → size ty ≡ some n → Lowers (push_stack ty) n
  Lowers-push_stack (array m ty) n s h = lower_by-Lowers (times_option m (size ty)) n h
  Lowers-push_stack (struct ident gen fields) n s h = Lowers-push_fields fields n s h
  Lowers-push_stack (enum ident gen none_left) n s h = absurd (ground arith)
  Lowers-push_stack (enum ident gen (variant tys variants)) n s h =
      lower_by-Lowers (largest_variant (some 0) (variant tys variants)) n
        (largest_variant-size tys variants n h)
  Lowers-push_stack (const_str m) n s h = null-Lowers n h
  Lowers-push_stack (ptr ty) n s h = null-Lowers n h
  Lowers-push_stack int n s h = null-Lowers n h
  Lowers-push_stack char n s h = null-Lowers n h
  Lowers-push_stack float n s h = null-Lowers n h
  Lowers-push_stack bool n s h = null-Lowers n h
  Lowers-push_stack (func ident params ret) n s h = absurd (ground arith)
  Lowers-push_stack (ref ty) n s h = absurd (ground arith)
  Lowers-push_stack (generic ident bound) n s h = absurd (ground arith)
  Lowers-push_stack void n s h = absurd (ground arith)
  Lowers-push_stack bottom n s h = absurd (ground arith)

  Lowers-push_fields :
      (tys : Types) (n : ℕ)
      → storable_all tys ≡ true
      → sum_sizes tys ≡ some n
      → Lowers (push_fields tys) n
  Lowers-push_fields nil n s h = ([], refl, ground arith)
  Lowers-push_fields (cons ty tys) n s h =
      let (x, y, first, rest, n-eq) = add_option-some (size ty) (sum_sizes tys) n h in
      subst (Lowers (push_fields (cons ty tys))) (sym n-eq) (
        append_code-Lowers (push_stack ty) (push_fields tys) x y
          (Lowers-push_stack ty x (both (storable ty) (storable_all tys) s).0 first)
          (Lowers-push_fields tys y (both (storable ty) (storable_all tys) s).1 rest))

-- The code that `push_stack` emits for a variable of a type that may be stored lowers `rsp` by exactly
-- the size of the type.
pub push_stack-Lowers :
    (ty : Ty) (n : ℕ) → storable ty ≡ true → size ty ≡ some n → Lowers (push_stack ty) n
push_stack-Lowers = Lowers-push_stack
