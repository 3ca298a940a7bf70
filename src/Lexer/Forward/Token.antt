-- ===== src/Lexer/Forward/Token.antt =====
-- `token_kind` goes forward.
use enumc.Prelude.{ℕ, Bool, true, ◌||◌, ◌&&◌, ◌==◌, Option}
use enumc.Lexer.Chars.{UnicodeXid, is_whitespace, is_id_start}
use enumc.Lexer.Token.{LiteralKind, RawStrError}
use enumc.Lexer.Cursor.{Cursor, Lex, first, second, bump}
use enumc.Lexer.Scan.{is_digit, single_quoted_string, double_quoted_string}
use enumc.Lexer.RawString.{raw_double_quoted_string}
use enumc.Lexer.Number.{number}
use enumc.Lexer.Advance.{
  suffixed, raw_literal, quoted_literal, char_literal, slash, after_r, after_b, digits, token_kind,
  is_none,
}
use enumc.Lexer.Forward.{Forward, Forward-refl, Forward-trans, if-Forward_method, bump-Forward}
use enumc.Lexer.Forward.Scan.{
  whitespace-Forward, line_comment-Forward, block_comment-Forward, ident-Forward,
  single_quoted_string-Forward, double_quoted_string-Forward, eat_literal_suffix-Forward,
}
use enumc.Lexer.Forward.Literals.{raw_double_quoted_string-Forward, number-Forward}

slash-Forward : (u : UnicodeXid) (c : Cursor) → Forward c (slash u c).1
unfolding slash
slash-Forward u c =
    if-Forward_method ((first c).0 == b'/') _ _ c (line_comment-Forward c)
      (if-Forward_method ((first c).0 == b'*') _ _ c (block_comment-Forward c) (Forward-refl c))

module _ (u : UnicodeXid) where
  suffixed-Forward : (b : Bool) (k : LiteralKind) (c : Cursor) → Forward c (suffixed u b k c).1
  unfolding suffixed
  suffixed-Forward b k c =
      if-Forward_method b _ _ c (eat_literal_suffix-Forward u c) (Forward-refl c)

  raw_literal-Forward :
      (n : ℕ) (kind : ℕ → Option RawStrError → LiteralKind) (c : Cursor)
      → Forward c (raw_literal u n kind c).1
  unfolding raw_literal
  raw_literal-Forward n kind c =
      let r = raw_double_quoted_string n c in
      Forward-trans (raw_double_quoted_string-Forward n c)
        (suffixed-Forward (is_none r.0.1) (kind r.0.0 r.0.1) r.1)

  quoted_literal-Forward :
      (m : Lex Bool) (kind : Bool → LiteralKind) (c : Cursor)
      → Forward c (m c).1
      → Forward c (quoted_literal u m kind c).1
  unfolding quoted_literal
  quoted_literal-Forward m kind c f =
      Forward-trans f (suffixed-Forward (m c).0 (kind (m c).0) (m c).1)

  after_r-Forward : (c : Cursor) → Forward c (after_r u c).1
  unfolding after_r
  after_r-Forward c =
      let f = (first c).0 in
      if-Forward_method (f == b'#' && is_id_start u (second c).0) _ _ c (Forward-refl c) (
        if-Forward_method (f == b'#' || f == b'"') _ _ c
          (raw_literal-Forward 1 LiteralKind.raw_str c) (ident-Forward u c))

  after_b-Forward : (c : Cursor) → Forward c (after_b u c).1
  unfolding after_b
  after_b-Forward c =
      let f = (first c).0 in
      let s = (second c).0 in
      let d = (bump c).1 in
      if-Forward_method (f == b'\'') _ _ c
        (Forward-trans (bump-Forward c) (
          quoted_literal-Forward single_quoted_string LiteralKind.byte d
            (single_quoted_string-Forward d)))
        (if-Forward_method (f == b'"') _ _ c
          (Forward-trans (bump-Forward c) (
            quoted_literal-Forward double_quoted_string LiteralKind.byte_str d
              (double_quoted_string-Forward d)))
          (if-Forward_method (f == b'r' && (s == b'"' || s == b'#')) _ _ c
            (Forward-trans (bump-Forward c) (raw_literal-Forward 2 LiteralKind.raw_byte_str d))
            (ident-Forward u c)))

  digits-Forward : (x : ℕ) (c : Cursor) → Forward c (digits u x c).1
  unfolding digits
  digits-Forward x c =
      Forward-trans (number-Forward u x c) (suffixed-Forward true (number u x c).0 (number u x c).1)

  char_literal-Forward : (c : Cursor) → Forward c (char_literal u c).1
  unfolding char_literal
  char_literal-Forward c =
      quoted_literal-Forward single_quoted_string LiteralKind.char c
        (single_quoted_string-Forward c)

  pub token_kind-Forward : (x : ℕ) (c : Cursor) → Forward c (token_kind u x c).1
  unfolding token_kind
  token_kind-Forward x c = if-Forward_method (x == b'/') _ _ c (slash-Forward u c) (
      if-Forward_method (is_whitespace x) _ _ c (whitespace-Forward c) (
        if-Forward_method (x == b'r') _ _ c (after_r-Forward c) (
          if-Forward_method (x == b'b') _ _ c (after_b-Forward c) (
            if-Forward_method (is_id_start u x) _ _ c (ident-Forward u c) (
              if-Forward_method (is_digit x) _ _ c (digits-Forward x c) (
                if-Forward_method (x == b'\'') _ _ c (char_literal-Forward c) (
                  if-Forward_method (x == b'"') _ _ c
                    (quoted_literal-Forward double_quoted_string LiteralKind.str c
                      (double_quoted_string-Forward c))
                    (Forward-refl c))))))))
