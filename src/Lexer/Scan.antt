-- ===== src/Lexer/Scan.antt =====
-- src/ast/lex.rs: the methods of `Cursor` that eat characters: comments, white space, identifiers,
-- digits and quoted strings. A loop over the remaining characters is a recursion on them.
use enumc.Prelude.{
  ℕ, ◌+◌, ◌-◌, ◌||◌, ◌&&◌, Bool, true, false, not, List, [], ◌∷◌, none, some, ◌==◌, within,
  if◌then◌else◌,
}
use enumc.Lexer.Token.{DocStyle, TokenKind}
use enumc.Lexer.Chars.{UnicodeXid, is_whitespace, is_id_start, is_id_continue}
use enumc.Lexer.Cursor.{Cursor, Lex, pure, ◌>>=◌, ◌>>◌, first, second, bump}

unfoldable pub eat_while_in : List ℕ → (ℕ → Bool) → Cursor → Cursor
eat_while_in [] predicate c = c
eat_while_in (x ∷ xs) predicate c =
    let rest = eat_while_in xs predicate (record c { chars = xs; prev = x }) in
    if predicate x then rest else c

unfoldable pub eat_while : (ℕ → Bool) → Lex (Unit {0})
unfolding eat_while_in
eat_while predicate c = (tt, eat_while_in c.chars predicate c)

unfoldable pub line_comment : Lex TokenKind
line_comment = do
  bump
  f ← first
  s ← second
  let doc_style =
      if f == b'!'
      then some DocStyle.inner
      else if f == b'/' && not (s == b'/')
      then some DocStyle.outer
      else none
  eat_while (λ c. not (c == b'\n'))
  pure (TokenKind.line_comment doc_style)

-- The `while` loop of `block_comment`: the depth at which it stops.
unfoldable pub block_loop : List ℕ → ℕ → Lex ℕ
block_loop [] depth c = (depth, c)
block_loop (x ∷ []) depth c = (depth, record c { chars = []; prev = x })
block_loop (x ∷ y ∷ xs) depth c =
    let one = block_loop (y ∷ xs) depth (record c { chars = y ∷ xs; prev = x }) in
    let two = λ (d : ℕ). block_loop xs d (record c { chars = xs; prev = y }) in
    let opened = two (depth + 1) in
    let closed = two (depth - 1) in
    if x == b'/' && y == b'*'
    then opened
    else if x == b'*' && y == b'/'
    then (if depth - 1 == 0 then (0, record c { chars = xs; prev = y }) else closed)
    else one

unfoldable pub block_comment : Lex TokenKind
block_comment = do
  bump
  f ← first
  s ← second
  let doc_style =
      if f == b'!'
      then some DocStyle.inner
      else if f == b'*' && not (s == b'*' || s == b'/')
      then some DocStyle.outer
      else none
  depth ← λ c. block_loop c.chars 1 c
  pure (TokenKind.block_comment doc_style (depth == 0))

unfoldable pub whitespace : Lex TokenKind
whitespace = do eat_while is_whitespace; pure TokenKind.whitespace

abbrev pub is_digit : ℕ → Bool
is_digit c = within b'0' b'9' c

abbrev pub is_hex_digit : ℕ → Bool
is_hex_digit c = is_digit c || within b'a' b'f' c || within b'A' b'F' c

-- The loop of `eat_decimal_digits` and of `eat_hexadecimal_digits`, which differ in the digits.
unfoldable pub eat_digits_in : (ℕ → Bool) → List ℕ → Bool → Lex Bool
eat_digits_in digit [] has_digits c = (has_digits, c)
eat_digits_in digit (x ∷ xs) has_digits c =
    let rest =
      eat_digits_in digit xs (if x == b'_' then has_digits else true)
        (record c { chars = xs; prev = x }) in
    if x == b'_' || digit x then rest else (has_digits, c)

unfoldable pub eat_decimal_digits : Lex Bool
unfolding eat_digits_in
eat_decimal_digits c = eat_digits_in is_digit c.chars false c

unfoldable pub eat_hexadecimal_digits : Lex Bool
unfolding eat_digits_in
eat_hexadecimal_digits c = eat_digits_in is_hex_digit c.chars false c

unfoldable pub eat_float_exponent : Lex Bool
eat_float_exponent = do
  f ← first
  if f == b'-' || f == b'+' then (do bump; eat_decimal_digits) else eat_decimal_digits

-- The loop of `single_quoted_string`. At the end of the input it stops; the character 0 does not
-- stop it.
unfoldable pub single_quoted_in : List ℕ → Lex Bool
single_quoted_in [] c = (false, c)
single_quoted_in (x ∷ []) c =
    if x == b'\''
    then (true, record c { chars = []; prev = x })
    else if x == b'/' || x == b'\n'
    then (false, c)
    else (false, record c { chars = []; prev = x })
single_quoted_in (x ∷ y ∷ xs) c =
    let one = single_quoted_in (y ∷ xs) (record c { chars = y ∷ xs; prev = x }) in
    let two = single_quoted_in xs (record c { chars = xs; prev = y }) in
    if x == b'\''
    then (true, record c { chars = y ∷ xs; prev = x })
    else if x == b'/'
    then (false, c)
    else if x == b'\n' && not (y == b'\'')
    then (false, c)
    else if x == b'\\'
    then two
    else one

unfoldable pub single_quoted_string : Lex Bool
unfolding single_quoted_in
single_quoted_string = do
  s ← second
  f ← first
  if s == b'\'' && not (f == b'\\') then (do bump; bump; pure true) else λ c.
      single_quoted_in c.chars c

-- The loop of `double_quoted_string`.
unfoldable pub double_quoted_in : List ℕ → Lex Bool
double_quoted_in [] c = (false, c)
double_quoted_in (x ∷ []) c = (x == b'"', record c { chars = []; prev = x })
double_quoted_in (x ∷ y ∷ xs) c =
    let one = double_quoted_in (y ∷ xs) (record c { chars = y ∷ xs; prev = x }) in
    let two = double_quoted_in xs (record c { chars = xs; prev = y }) in
    if x == b'"'
    then (true, record c { chars = y ∷ xs; prev = x })
    else if x == b'\\' && (y == b'\\' || y == b'"')
    then two
    else one

unfoldable pub double_quoted_string : Lex Bool
unfolding double_quoted_in
double_quoted_string c = double_quoted_in c.chars c

module _ (u : UnicodeXid) where
  unfoldable pub ident : Lex TokenKind
  ident = do eat_while (is_id_continue u); pure TokenKind.ident

  unfoldable pub eat_identifier : Lex (Unit {0})
  eat_identifier = do
    f ← first
    if not (is_id_start u f) then pure tt else (do bump; eat_while (is_id_continue u))

  unfoldable pub eat_literal_suffix : Lex (Unit {0})
  unfolding eat_identifier
  eat_literal_suffix = eat_identifier
