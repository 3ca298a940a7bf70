-- ===== src/Lexer/RawString.antt =====
-- src/ast/lex.rs: raw strings, `r"..."`, `r#"..."#` and so on.
use enumc.Prelude.{
  ℕ, zero, suc, ◌+◌, ◌-◌, ◌^◌, ◌&&◌, not, List, [], ◌∷◌, Option, none, some, ltb, ◌==◌,
  if◌then◌else◌, length,
}
use enumc.Lexer.Token.{RawStrError, invalid_starter, no_terminator, too_many_delimiters}
use enumc.Lexer.Cursor.{Lex, pure, ◌>>=◌, ◌>>◌, eof_char, is_eof, bump, len_consumed}
use enumc.Lexer.Scan.{eat_while}

-- The count of the opening `#`s, from `eaten`.
unfoldable pub eat_opening_in : List ℕ → ℕ → Lex ℕ
eat_opening_in [] eaten c = (eaten, c)
eat_opening_in (x ∷ xs) eaten c =
    let rest = eat_opening_in xs (eaten + 1) (record c { chars = xs; prev = x }) in
    if x == b'#' then rest else (eaten, c)

unfoldable pub eat_opening_hashes : Lex ℕ
unfolding eat_opening_in
eat_opening_hashes c = eat_opening_in c.chars 0 c

-- The count of the closing `#`s, at most `n_start_hashes`, from `n_end_hashes`.
unfoldable pub eat_closing_in : List ℕ → ℕ → ℕ → Lex ℕ
eat_closing_in [] n_start_hashes n_end_hashes c = (n_end_hashes, c)
eat_closing_in (x ∷ xs) n_start_hashes n_end_hashes c =
    let rest =
      eat_closing_in xs n_start_hashes (n_end_hashes + 1) (record c { chars = xs; prev = x }) in
    if x == b'#' && ltb n_end_hashes n_start_hashes then rest else (n_end_hashes, c)

unfoldable pub eat_closing_hashes : ℕ → Lex ℕ
unfolding eat_closing_in
eat_closing_hashes n_start_hashes c = eat_closing_in c.chars n_start_hashes 0 c

-- What the loop of `raw_string_unvalidated` knows and does not change.
pub record Opened : Type 0 where
  pub prefix_len : ℕ
  pub start_pos : ℕ
  pub n_start_hashes : ℕ

-- The loop that skips the contents, on fuel; `none` means that the fuel ran out.
unfoldable pub raw_loop : ℕ → Opened → Option ℕ → ℕ → Lex (Option (ℕ × Option RawStrError))
raw_loop zero o possible_terminator_offset max_hashes c = (none, c)
raw_loop (suc fuel) o possible_terminator_offset max_hashes c =
    let n = o.n_start_hashes in
    let after = (do
      eat_while (λ x. not (x == b'"'))
      end ← is_eof
      let unterminated = some (n, some (no_terminator n max_hashes possible_terminator_offset))
      let close = (do
        bump
        n_end_hashes ← eat_closing_hashes n
        consumed ← len_consumed
        let guess = some (consumed - o.start_pos - n_end_hashes + o.prefix_len)
        let again = raw_loop fuel o possible_terminator_offset max_hashes
        let further = raw_loop fuel o guess n_end_hashes
        if n_end_hashes == n
            then pure (some (n, none))
            else if ltb max_hashes n_end_hashes
            then further
            else again)
      if end then pure unterminated else close) in
    after c

-- What the loop returned. The fuel of `raw_contents` does not run out.
abbrev pub returned : ℕ → Option (ℕ × Option RawStrError) → ℕ × Option RawStrError
returned n none = (n, some (no_terminator n 0 none))
returned n (some r) = r

-- More fuel than there are characters left, since each round takes a double quote.
unfoldable pub raw_contents : Opened → Lex (ℕ × Option RawStrError)
raw_contents o = do
  r ← λ c. raw_loop (suc (length c.chars)) o none 0 c
  pure (returned o.n_start_hashes r)

-- The match on the character behind the opening `#`s.
unfoldable pub raw_starter : Opened → Option ℕ → Lex (ℕ × Option RawStrError)
raw_starter o none = pure (o.n_start_hashes, some (invalid_starter eof_char))
raw_starter o (some bad_char) =
    if bad_char == b'"'
    then raw_contents o
    else pure (o.n_start_hashes, some (invalid_starter bad_char))

unfoldable pub raw_string_unvalidated : ℕ → Lex (ℕ × Option RawStrError)
raw_string_unvalidated prefix_len = do
  start_pos ← len_consumed
  n_start_hashes ← eat_opening_hashes
  c ← bump
  raw_starter
      (record { prefix_len = prefix_len; start_pos = start_pos; n_start_hashes = n_start_hashes }) c

-- `u16::try_from(n_hashes)`
unfoldable pub validated : ℕ × Option RawStrError → ℕ × Option RawStrError
validated (n_hashes, err) =
    if ltb n_hashes (2 ^ 16) then (n_hashes, err) else (0, some (too_many_delimiters n_hashes))

unfoldable pub raw_double_quoted_string : ℕ → Lex (ℕ × Option RawStrError)
raw_double_quoted_string prefix_len = do r ← raw_string_unvalidated prefix_len; pure (validated r)
