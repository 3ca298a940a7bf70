-- ===== src/Lexer/Token.antt =====
-- The tokens of src/ast/lex.rs: `Token`, `TokenKind`, `DocStyle`, `LiteralKind`, `RawStrError` and
-- `Base`. A `char` is its code point, `usize` and `u16` are numbers.
use enumc.Prelude.{ℕ, Bool, Option}

pub data DocStyle : Type 0 where
  outer inner : DocStyle

-- "0b", "0o", "0x", or no prefix
pub data Base : Type 0 where
  binary octal hexadecimal decimal : Base

-- `invalid_starter bad_char`, `no_terminator expected found possible_terminator_offset`,
-- `too_many_delimiters found`
pub data RawStrError : Type 0 where
  invalid_starter : ℕ → RawStrError
  no_terminator : ℕ → ℕ → Option ℕ → RawStrError
  too_many_delimiters : ℕ → RawStrError

-- `int base empty_int`, `float base empty_exponent`; the flag of a quoted literal is `terminated`;
-- `raw_str n_hashes err`
pub data LiteralKind : Type 0 where
  int : Base → Bool → LiteralKind
  float : Base → Bool → LiteralKind
  char byte str byte_str : Bool → LiteralKind
  raw_str raw_byte_str : ℕ → Option RawStrError → LiteralKind

-- `line_comment doc_style`, `block_comment doc_style terminated`, `literal kind suffix_start`
pub data TokenKind : Type 0 where
  line_comment : Option DocStyle → TokenKind
  block_comment : Option DocStyle → Bool → TokenKind
  whitespace ident : TokenKind
  literal : LiteralKind → ℕ → TokenKind
  semi comma dot open_paren close_paren open_brace close_brace open_bracket : TokenKind
  close_bracket at pound tilde question colon dollar eq bang lt gt minus and or : TokenKind
  plus star slash caret percent : TokenKind
  eof unknown : TokenKind

pub record Token : Type 0 where
  pub kind : TokenKind
  pub len : ℕ
