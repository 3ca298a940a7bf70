-- ===== src/Lexer/Comments.antt =====
-- What the lexer makes of comments, white space and identifiers.
use enumc.Prelude.{
  ℕ, ◌≡◌, ◌≢◌, refl, Bool, true, false, not, List, [], ◌∷◌, ◌++◌, Option, none, some, ◌==◌, ◌&&◌,
  if◌then◌else◌, arith, all,
}
use enumc.Lexer.Token.{DocStyle, outer, inner, TokenKind}
use enumc.Lexer.Chars.{UnicodeXid, str_len, is_whitespace, is_id_start, is_id_continue, is_ident}
use enumc.Lexer.Cursor.{Cursor, new}
use enumc.Lexer.Scan.{line_comment, whitespace, ident}
use enumc.Lexer.Advance.{token_kind, slash, first_token}
use enumc.Lexer.Exact.{stops, eat_while-exact, behind, first_token-exact}

-- The documentation style of a line comment with this text behind its `//`.
abbrev pub line_doc : List ℕ → Option DocStyle
line_doc [] = none
line_doc (x ∷ []) = if x == b'!' then some inner else if x == b'/' then some outer else none
line_doc (x ∷ y ∷ xs) =
    if x == b'!' then some inner else if x == b'/' && not (y == b'/') then some outer else none

abbrev not_newline : ℕ → Bool
not_newline x = not (x == b'\n')

line_doc-token :
    (body rest : List ℕ) (c : Cursor)
    → stops not_newline rest ≡ true
    → c.chars ≡ b'/' ∷ (body ++ rest)
    → (line_comment c).0 ≡ TokenKind.line_comment (line_doc body)
unfolding line_comment
line_doc-token [] [] c s e = rw e refl
line_doc-token [] (z ∷ rest) c s e = rw e (ground arith)
line_doc-token (x ∷ []) [] c s e = rw e (ground arith)
line_doc-token (x ∷ []) (z ∷ rest) c s e = rw e (ground arith)
line_doc-token (x ∷ y ∷ body) rest c s e = rw e (ground arith)

module _ (u : UnicodeXid) where
  -- A line comment ends in front of the next newline, or with the input, and its documentation
  -- style is `line_doc` of what stands behind `//`.
  pub first_token-line_comment :
      (body rest : List ℕ)
      → all not_newline body ≡ true
      → stops not_newline rest ≡ true
      → first_token u (b'/' ∷ (b'/' ∷ body) ++ rest)
        ≡ some (record {
          kind = TokenKind.line_comment (line_doc body);
          len = str_len (b'/' ∷ b'/' ∷ body);
        })
  unfolding token_kind slash line_comment new
  first_token-line_comment body rest h s =
      first_token-exact u b'/' (b'/' ∷ body) rest
        (line_doc-token body rest (behind b'/' (b'/' ∷ body ++ rest)) s refl)
        (eat_while-exact not_newline body rest _ refl h s)

  token_kind-whitespace : (x : ℕ) → is_whitespace x ≡ true → token_kind u x ≡ whitespace
  unfolding token_kind is_whitespace
  token_kind-whitespace x h = ground arith

  token_kind-ident :
      (x : ℕ)
      → is_whitespace x ≡ false
      → is_id_start u x ≡ true
      → x ≢ b'r'
      → x ≢ b'b'
      → token_kind u x ≡ ident u
  unfolding token_kind is_id_start
  token_kind-ident x w h nr nb = ground arith

  -- White space is taken as far as it goes.
  pub first_token-whitespace :
      (x : ℕ) (text rest : List ℕ)
      → all is_whitespace (x ∷ text) ≡ true
      → stops is_whitespace rest ≡ true
      → first_token u (x ∷ text ++ rest)
        ≡ some (record { kind = TokenKind.whitespace; len = str_len (x ∷ text) })
  unfolding whitespace new
  first_token-whitespace x text rest h s =
      let is_space : is_whitespace x ≡ true = ground arith in
      let spaces : all is_whitespace text ≡ true = ground arith in
      let e = token_kind-whitespace x is_space in
      first_token-exact u x text rest (rw e)
        (rw e (eat_while-exact is_whitespace text rest (behind x (text ++ rest)) refl spaces s))

  -- An identifier that does not begin with `r`, `b` or white space is taken as far as it goes.
  pub first_token-ident :
      (x : ℕ) (text rest : List ℕ)
      → is_ident u (x ∷ text) ≡ true
      → is_whitespace x ≡ false
      → x ≢ b'r'
      → x ≢ b'b'
      → stops (is_id_continue u) rest ≡ true
      → first_token u (x ∷ text ++ rest)
        ≡ some (record { kind = TokenKind.ident; len = str_len (x ∷ text) })
  unfolding ident is_ident new
  first_token-ident x text rest h w nr nb s =
      let start : is_id_start u x ≡ true = ground arith in
      let chars : all (is_id_continue u) text ≡ true = ground arith in
      let e = token_kind-ident x w start nr nb in
      first_token-exact u x text rest (rw e)
        (rw e (eat_while-exact (is_id_continue u) text rest (behind x (text ++ rest)) refl chars s))
