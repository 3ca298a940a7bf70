-- ===== src/Scopes.antt =====
-- src/typeck/scope.rs, src/typeck/trait_solver.rs: the names that are declared in each file, the types they
-- stand for, and the traits with their implementations.
pub mod Walker
pub mod Resolve
pub mod Items
pub mod Adts
pub mod Traits
pub mod Generic
mod Tests
