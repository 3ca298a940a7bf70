-- ===== src/Errors.antt =====
-- src/error.rs: the errors that the compiler collects, and where it says that they are.
pub mod Report
pub mod Sorted
pub mod Position
mod Tests
