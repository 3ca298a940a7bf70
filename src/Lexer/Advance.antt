-- ===== src/Lexer/Advance.antt =====
-- src/ast/lex.rs: `advance_token`, `first_token` and `tokenize`.
use enumc.Prelude.{
  ℕ, zero, suc, ◌||◌, ◌&&◌, Bool, true, false, List, [], ◌∷◌, Option, none, some, ◌==◌,
  if◌then◌else◌,
}
use enumc.Lexer.Token.{LiteralKind, TokenKind, Token, RawStrError}
use enumc.Lexer.Chars.{UnicodeXid, is_whitespace, is_id_start, slice_from}
use enumc.Lexer.Cursor.{Cursor, new, Lex, pure, ◌>>=◌, ◌>>◌, first, second, bump, len_consumed}
use enumc.Lexer.Scan.{
  is_digit, line_comment, block_comment, whitespace, ident, single_quoted_string,
  double_quoted_string, eat_literal_suffix,
}
use enumc.Lexer.RawString.{raw_double_quoted_string}
use enumc.Lexer.Number.{number}

-- The one-symbol tokens, and `Unknown` for any other character.
unfoldable pub symbol : ℕ → TokenKind
symbol c =
    if c == b';'
    then TokenKind.semi
    else if c == b','
    then TokenKind.comma
    else if c == b'.'
    then TokenKind.dot
    else if c == b'('
    then TokenKind.open_paren
    else if c == b')'
    then TokenKind.close_paren
    else if c == b'{'
    then TokenKind.open_brace
    else if c == b'}'
    then TokenKind.close_brace
    else if c == b'['
    then TokenKind.open_bracket
    else if c == b']'
    then TokenKind.close_bracket
    else if c == b'@'
    then TokenKind.at
    else if c == b'#'
    then TokenKind.pound
    else if c == b'~'
    then TokenKind.tilde
    else if c == b'?'
    then TokenKind.question
    else if c == b':'
    then TokenKind.colon
    else if c == b'$'
    then TokenKind.dollar
    else if c == b'='
    then TokenKind.eq
    else if c == b'!'
    then TokenKind.bang
    else if c == b'<'
    then TokenKind.lt
    else if c == b'>'
    then TokenKind.gt
    else if c == b'-'
    then TokenKind.minus
    else if c == b'&'
    then TokenKind.and
    else if c == b'|'
    then TokenKind.or
    else if c == b'+'
    then TokenKind.plus
    else if c == b'*'
    then TokenKind.star
    else if c == b'^'
    then TokenKind.caret
    else if c == b'%'
    then TokenKind.percent
    else TokenKind.unknown

-- `err.is_none()`
abbrev pub is_none : Option RawStrError → Bool
is_none none = true
is_none (some err) = false

-- An iterator's item in front of its later ones.
abbrev pub prepend : Token → Option (List Token) → Option (List Token)
prepend token none = none
prepend token (some tokens) = some (token ∷ tokens)

module _ (u : UnicodeXid) where
  -- What all the literals end with: the suffix, eaten under a condition.
  unfoldable pub suffixed : Bool → LiteralKind → Lex TokenKind
  suffixed complete kind = do
    suffix_start ← len_consumed
    if complete then eat_literal_suffix u else pure tt
    pure (TokenKind.literal kind suffix_start)

  unfoldable pub raw_literal : ℕ → (ℕ → Option RawStrError → LiteralKind) → Lex TokenKind
  raw_literal prefix_len kind = do
    r ← raw_double_quoted_string prefix_len
    suffixed (is_none r.1) (kind r.0 r.1)

  unfoldable pub quoted_literal : Lex Bool → (Bool → LiteralKind) → Lex TokenKind
  quoted_literal string kind = do terminated ← string; suffixed terminated (kind terminated)

  unfoldable pub char_literal : Lex TokenKind
  char_literal = quoted_literal single_quoted_string LiteralKind.char

  unfoldable pub slash : Lex TokenKind
  slash = do
    f ← first
    if f == b'/' then line_comment else if f == b'*' then block_comment else pure TokenKind.slash

  -- Behind `r`: a raw string or an identifier.
  unfoldable pub after_r : Lex TokenKind
  after_r = do
    f ← first
    s ← second
    if f == b'#' && is_id_start u s
        then pure TokenKind.unknown
        else if f == b'#' || f == b'"'
        then raw_literal 1 LiteralKind.raw_str
        else ident u

  -- Behind `b`: a byte, a byte string, a raw byte string or an identifier.
  unfoldable pub after_b : Lex TokenKind
  after_b = do
    f ← first
    s ← second
    if f == b'\''
        then (do bump; quoted_literal single_quoted_string LiteralKind.byte)
        else if f == b'"'
        then (do bump; quoted_literal double_quoted_string LiteralKind.byte_str)
        else if f == b'r' && (s == b'"' || s == b'#')
        then (do bump; raw_literal 2 LiteralKind.raw_byte_str)
        else ident u

  unfoldable pub digits : ℕ → Lex TokenKind
  digits first_digit = do kind ← number u first_digit; suffixed true kind

  -- The match of `advance_token` on the first character.
  unfoldable pub token_kind : ℕ → Lex TokenKind
  token_kind c =
      if c == b'/'
      then slash
      else if is_whitespace c
      then whitespace
      else if c == b'r'
      then after_r
      else if c == b'b'
      then after_b
      else if is_id_start u c
      then ident u
      else if is_digit c
      then digits c
      else if c == b'\''
      then char_literal
      else if c == b'"'
      then quoted_literal double_quoted_string LiteralKind.str
      else pure (symbol c)

  abbrev pub token_from : Option ℕ → Cursor → Option (Token × Cursor)
  token_from none c = none
  token_from (some first_char) c = some (
      (do
        kind ← token_kind first_char
        len ← len_consumed
        pure (record { kind = kind; len = len }))
        c)

  -- `none` is the panic of `bump().unwrap()` at the end of the input.
  unfoldable pub advance_token : Cursor → Option (Token × Cursor)
  advance_token c = token_from (bump c).0 (bump c).1

  unfoldable pub first_token : List ℕ → Option Token
  first_token input = elim (advance_token (new input)) [
    | none ↦ none
    | some (token, c) ↦ some token
  ]

  -- What the iterator of `tokenize` yields, on fuel. `none` is a panic, or that the fuel ran out.
  unfoldable pub tokenize : ℕ → List ℕ → Option (List Token)
  tokenize fuel [] = some []
  tokenize zero (x ∷ xs) = none
  tokenize (suc fuel) (x ∷ xs) = elim (first_token (x ∷ xs)) [
    | none ↦ none
    | some token ↦ elim (slice_from token.len (x ∷ xs)) [
      | none ↦ none
      | some input ↦ prepend token (tokenize fuel input)
    ]
  ]
