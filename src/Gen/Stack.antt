-- ===== src/Gen/Stack.antt =====
-- src/gen/asm.rs: the stack of a function: `push_stack`, `alloc_stack`, `alloc_arg` and the start of `visit_func`. The part of
-- `CodeGen` they change is kept; an identifier is its number, and a size is a `usize` that does not
-- overflow.
pub mod Frame
pub mod Vars
use enumc.Prelude.{
  ℕ, zero, suc, ◌+◌, ◌*◌, Bool, true, false, List, [], ◌∷◌, ◌++◌, Option, none, some, ltb,
  if◌then◌else◌,
}
use enumc.Lir.Isize.{pos}
use enumc.Lir.Val
use enumc.Lir.Op.{BinOp}
use enumc.Lir.Layout.{
  Ty, generic, array, struct, enum, func, ptr, ref, const_str, int, char, float, bool, void, bottom,
  Types, nil, cons, Variants, none_left, variant, size, sum_sizes, null_val, add_option,
  times_option,
}
use enumc.Gen.Inst.{
  Register, rsp, rbp, rdi, rsi, rdx, rcx, r8, r9, FloatRegister, xmm0, xmm1, xmm2, xmm3, xmm4, xmm5,
  xmm6, xmm7, Location, register, float_reg, const, numbered_offset, Instruction, meta, push, mov,
  math, float_mov,
}

pub record CodeGen : Type 0 where
  pub asm_buf : List Instruction
  pub current_stack : ℕ
  pub total_stack : ℕ
  -- `vars`, the last insertion first
  pub vars : List (ℕ × Location)

abbrev pub arg_regs : List Register
arg_regs = rdi ∷ rsi ∷ rdx ∷ rcx ∷ r8 ∷ r9 ∷ []

abbrev pub arg_float_regs : List FloatRegister
arg_float_regs = xmm0 ∷ xmm1 ∷ xmm2 ∷ xmm3 ∷ xmm4 ∷ xmm5 ∷ xmm6 ∷ []

-- The constant 0
abbrev pub zero_loc : Location
zero_loc = const (Val.int (pos 0))

-- rsp -= n
abbrev pub lower_rsp : ℕ → Instruction
lower_rsp n = math (const (Val.int (pos n))) (register rsp) BinOp.sub

abbrev pub lower_by : Option ℕ → Option (List Instruction)
lower_by none = none
lower_by (some n) = some (lower_rsp n ∷ [])

abbrev pub push_null : Option Val.Val → Option (List Instruction)
push_null none = none
push_null (some val) = some (push (const val) 8 ∷ [])

abbrev pub larger_variant : ℕ → Option ℕ → Option ℕ
larger_variant largest none = none
larger_variant largest (some curr) = some (if ltb largest curr then curr else largest)

-- The loop over an enum's variants: each counts 8 bytes for the tag.
unfoldable pub largest_variant : Option ℕ → Variants → Option ℕ
largest_variant none variants = none
largest_variant (some largest) none_left = some largest
largest_variant (some largest) (variant tys variants) =
    largest_variant (larger_variant largest (add_option (sum_sizes tys) (some 8))) variants

abbrev pub append_code :
    Option (List Instruction) → Option (List Instruction) → Option (List Instruction)
append_code none b = none
append_code (some a) none = none
append_code (some a) (some b) = some (a ++ b)

-- What `push_stack` appends to `asm_buf`, where `none` is the `unreachable!`
unfoldable mutual
  pub push_stack : Ty → Option (List Instruction)
  push_stack (array n ty) = lower_by (times_option n (size ty))
  push_stack (struct ident gen fields) = push_fields fields
  push_stack (enum ident gen variants) = lower_by (largest_variant (some 0) variants)
  push_stack (const_str n) = push_null (null_val (const_str n))
  push_stack (ptr ty) = push_null (null_val (ptr ty))
  push_stack int = push_null (null_val int)
  push_stack float = push_null (null_val float)
  push_stack char = push_null (null_val char)
  push_stack bool = push_null (null_val bool)
  push_stack (ref ty) = none
  push_stack (func ident params ret) = none
  push_stack void = none
  push_stack (generic ident bound) = none
  push_stack bottom = none

  pub push_fields : Types → Option (List Instruction)
  push_fields nil = some []
  push_fields (cons ty tys) = append_code (push_stack ty) (push_fields tys)

-- The state once the code is emitted and `n` bytes are added to the frame for a variable.
abbrev pub add_var : CodeGen → List Instruction → ℕ → ℕ → CodeGen
add_var gen code n name = record {
  asm_buf = gen.asm_buf ++ code;
  current_stack = gen.current_stack + n;
  total_stack = gen.total_stack + n;
  vars = (name, numbered_offset (gen.current_stack + n) rbp) ∷ gen.vars;
}

abbrev pub emit_var : CodeGen → Option (List Instruction) → Option ℕ → ℕ → Option CodeGen
emit_var gen none n name = none
emit_var gen (some code) none name = none
emit_var gen (some code) (some n) name = some (add_var gen code n name)

-- `alloc_stack`, less the location it returns, the one it inserts for `name`
unfoldable pub alloc_stack : CodeGen → ℕ → Ty → Option CodeGen
alloc_stack gen name ty = emit_var gen (push_stack ty) (size ty) name

abbrev pub get_elem? {ℓ} : {A : Type ℓ} → List A → ℕ → Option A
get_elem? [] n = none
get_elem? (x ∷ xs) zero = some x
get_elem? (x ∷ xs) (suc n) = get_elem? xs n

unfoldable pub arg_size : Ty → Option ℕ
arg_size (array n ty) = some 8
arg_size ty = size ty

abbrev pub push_arg : Option Register → Option ℕ → Option (List Instruction)
push_arg (some reg) (some n) = some (push (register reg) n ∷ [])
push_arg _ _ = none

abbrev pub push_float : Location → Option FloatRegister → Option ℕ → Option (List Instruction)
push_float ref_loc (some reg) (some n) =
    some (push zero_loc n ∷ float_mov (float_reg reg) ref_loc ∷ [])
push_float ref_loc _ _ = none

abbrev pub with_count : ℕ → Option CodeGen → Option (CodeGen × ℕ)
with_count f_count none = none
with_count f_count (some gen) = some (gen, f_count)

-- `alloc_arg`, with the new `f_count`; `none` is the panic of an index or of `size`
unfoldable pub alloc_arg : CodeGen → ℕ → ℕ → ℕ → Ty → Option (CodeGen × ℕ)
alloc_arg gen count f_count name float = with_count (suc f_count) (
    emit_var gen
      (push_float (numbered_offset (gen.current_stack + 8) rbp) (get_elem? arg_float_regs f_count)
        (some 8))
      (some 8) name)
alloc_arg gen count f_count name ty =
    with_count f_count
      (emit_var gen (push_arg (get_elem? arg_regs count) (arg_size ty)) (arg_size ty) name)

-- What `visit_func` does before the parameters of a function that is not linked or extern, nor an empty method of
-- a trait, and has statements. The function's name is the text `name`.
unfoldable pub enter_func : CodeGen → ℕ → List ℕ → CodeGen
enter_func gen ident name = record {
  asm_buf =
      gen.asm_buf
      ++ meta name
        ∷ Instruction.label name
        ∷ push (register rbp) 8
        ∷ mov (register rsp) (register rbp)
        ∷ [];
  current_stack = gen.current_stack;
  total_stack = gen.total_stack;
  vars = (ident, Location.label name) ∷ gen.vars;
}

-- The loop of `visit_func` over the parameters. It inserts the location that `alloc_arg` has inserted once
-- more, which changes nothing.
unfoldable pub alloc_args : CodeGen → ℕ → ℕ → List (ℕ × Ty) → Option (CodeGen × ℕ)
alloc_args gen count f_count [] = some (gen, f_count)
alloc_args gen count f_count ((name, ty) ∷ params) = elim (alloc_arg gen count f_count name ty) [
  | none ↦ none
  | some (gen', f_count') ↦ alloc_args gen' (suc count) f_count' params
]
