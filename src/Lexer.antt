-- ===== src/Lexer.antt =====
-- src/ast/lex.rs and src/ast/lex/eater.rs: from characters to tokens.
pub mod Token
pub mod Chars
pub mod Cursor
pub mod Scan
pub mod RawString
pub mod Number
pub mod Advance
pub mod Forward
pub mod RawFuel
pub mod Slices
pub mod Cover
pub mod Exact
pub mod Comments
pub mod BlockComments
pub mod Strings
pub mod RawStrings
pub mod Match
mod Tests
