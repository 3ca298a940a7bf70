-- ===== src/Lir/Layout.antt =====
-- src/lir/lower.rs: the types of the IR, their sizes in bytes and their null values.
use enumc.Prelude.{ℕ, ◌+◌, ◌*◌, List, Option, none, some, ltb, if◌then◌else◌}
use enumc.Lir.Isize.{pos}
use enumc.Lir.Val.{Val}

-- A definition is the types of its fields, or of its variants; their names are not kept.
mutual
  pub data Ty : Type 0 where
    generic : ℕ → Option (List ℕ) → Ty
    array : ℕ → Ty → Ty
    struct : ℕ → Types → Types → Ty
    enum : ℕ → Types → Variants → Ty
    func : ℕ → Types → Ty → Ty
    ptr ref : Ty → Ty
    const_str : ℕ → Ty
    int char float bool void bottom : Ty

  pub data Types : Type 0 where
    nil : Types
    cons : Ty → Types → Types

  pub data Variants : Type 0 where
    none_left : Variants
    variant : Types → Variants → Variants

abbrev pub add_option : Option ℕ → Option ℕ → Option ℕ
add_option none b = none
add_option (some a) none = none
add_option (some a) (some b) = some (a + b)

abbrev pub times_option : ℕ → Option ℕ → Option ℕ
times_option n none = none
times_option n (some a) = some (a * n)

abbrev pub larger : ℕ → ℕ → ℕ
larger a b = if ltb a b then b else a

-- `none` if either is a panic
abbrev pub max_option : Option ℕ → Option ℕ → Option ℕ
max_option none b = none
max_option (some a) none = none
max_option (some a) (some b) = some (larger a b)

-- `size`, where `none` is the `unreachable!`
unfoldable mutual
  pub size : Ty → Option ℕ
  size (array n ty) = times_option n (size ty)
  size (struct ident gen fields) = sum_sizes fields
  size (enum ident gen variants) = add_option (some 8) (max_variants variants)
  size (ptr ty) = some 8
  size (func ident params ret) = some 8
  size (ref ty) = some 8
  size (const_str n) = some 8
  size int = some 8
  size char = some 8
  size float = some 8
  size bool = some 8
  size void = some 0
  size (generic ident bound) = none
  size bottom = none

  pub sum_sizes : Types → Option ℕ
  sum_sizes nil = some 0
  sum_sizes (cons ty tys) = add_option (size ty) (sum_sizes tys)

  -- `max().unwrap_or(0)` of the variants' sums
  pub max_variants : Variants → Option ℕ
  max_variants none_left = some 0
  max_variants (variant tys variants) = max_option (sum_sizes tys) (max_variants variants)

unfoldable pub null_val : Ty → Option Val
null_val (ptr ty) = some (Val.int (pos 0))
null_val (ref ty) = some (Val.int (pos 0))
null_val (const_str n) = some (Val.int (pos 0))
null_val int = some (Val.int (pos 0))
null_val float = some (Val.int (pos 0))
null_val char = some (Val.int (pos 0))
null_val bool = some (Val.int (pos 0))
null_val _ = none
