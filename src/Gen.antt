-- ===== src/Gen.antt =====
-- src/gen/asm.rs and src/gen/asm/inst.rs: the assembler back end: its registers and stack frames.
pub mod Inst
pub mod Registers
pub mod Stack
mod Tests
