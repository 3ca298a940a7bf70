-- ===== src/Lir.antt =====
-- src/lir: the low level IR: its constants and the folding of its constant expressions.
pub mod Isize
pub mod Op
pub mod Val
pub mod Layout
pub mod Lower
pub mod Expr
pub mod Meaning
pub mod Stable
mod Tests
