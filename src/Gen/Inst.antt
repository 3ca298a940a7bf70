-- ===== src/Gen/Inst.antt =====
-- src/gen/asm/inst.rs: registers, locations, and the instructions that reserve stack space.
use enumc.Prelude.{ℕ, List}
use enumc.Lir.Val.{Val}
use enumc.Lir.Op.{BinOp}

pub data Register : Type 0 where
  rax rcx rdx rbx rsp rbp rsi rdi r8 r9 r10 r11 r12 r13 r14 r15 : Register

pub data FloatRegister : Type 0 where
  xmm0 xmm1 xmm2 xmm3 xmm4 xmm5 xmm6 xmm7 : FloatRegister

-- A text is the list of its characters.
pub data Location : Type 0 where
  reg_addr : Register → ℕ → ℕ → Location
  register : Register → Location
  float_reg : FloatRegister → Location
  const : Val → Location
  label named_offset : List ℕ → Location
  named_offset_index : List ℕ → ℕ → Location
  numbered_offset : ℕ → Register → Location
  indexable : ℕ → ℕ → Register → Location

-- `push loc size`, `mov src dst`, `math src dst op`, `float_mov src dst`, without their comments. Of the text
-- of `meta`, which stands in front of a function, the function's name is kept. The other instructions are not
-- needed here.
pub data Instruction : Type 0 where
  meta label : List ℕ → Instruction
  push : Location → ℕ → Instruction
  mov : Location → Location → Instruction
  math : Location → Location → BinOp → Instruction
  float_mov : Location → Location → Instruction
