-- ===== src/Types.antt =====
-- src/ast/types.rs: the types of the language, `Ty`, and what the compiler asks of them.
pub mod Span
pub mod Ty
pub mod Equality
pub mod Indirection
pub mod Generics
pub mod Fold
pub mod FoldSound
pub mod FoldFuel
mod Tests
