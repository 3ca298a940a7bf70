-- ===== src/Parser.antt =====
-- src/ast/parse.rs and src/ast/parse/: operators and expressions.
pub mod Ops
pub mod Yard
pub mod Interner
pub mod Stream
pub mod Eat
pub mod Types
pub mod Decls
pub mod MakeOp
pub mod Literal
pub mod Expr
pub mod Stmt
pub mod Items
mod Tests
