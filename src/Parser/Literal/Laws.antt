-- ===== src/Parser/Literal/Laws.antt =====
-- src/ast/parse.rs: what `make_literal` reads.
use enumc.Prelude.{ℕ, ◌<◌, ◌≡◌, ◌≢◌, refl, List, [], ◌∷◌, arith}
use enumc.Lexer.Chars.{str_len, len_utf8}
use enumc.Parser.Stream.{Tok, done, failed, panic, expected}
use enumc.Parser.Literal.{
  char, escaped, strip_next, until_last, between, without_backslashes, char_between, char_value,
}

-- The character between single quotes is that of the literal, unless it is a backslash, a double quote or no
-- single byte.
pub char_between-plain :
    (c : ℕ) (toks : List Tok)
    → c < 0x80
    → c ≢ b'\\'
    → c ≢ b'"'
    → char_between (between (b'\'' ∷ c ∷ b'\'' ∷ [])) toks ≡ done (char c) toks
unfolding between until_last without_backslashes strip_next str_len len_utf8
char_between-plain c toks lt nb nq = ground arith

-- A backslash, a quote behind one and a double quote are no character literals.
no_char :
    (toks : List Tok)
    → (char_value "'\\\\'" toks ≡ failed expected)
      × (char_value "'\\''" toks ≡ panic)
      × (char_value "'\"'" toks ≡ panic)
unfolding char_value between until_last without_backslashes strip_next escaped str_len len_utf8
no_char toks = (refl, refl, refl)
