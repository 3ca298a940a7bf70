-- ===== src/Data.antt =====
-- src/data_struc: the compiler's own collections.
pub mod RawVec
pub mod Block
pub mod Refines
mod Tests
