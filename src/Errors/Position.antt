-- ===== src/Errors/Position.antt =====
-- src/error.rs: `calc_line_col`, the row and column of an error.
use enumc.Prelude.{
  ℕ, zero, suc, ◌+◌, ◌≡◌, refl, ap, ap₂, ◌∙◌, List, [], ◌∷◌, ◌++◌, ◌==◌, if◌then◌else◌, arith,
  length, Bool, true, false, not, all, ltb,
}
use enumc.Lexer.Chars.{str_len, len_utf8}

abbrev pub take : ℕ → List ℕ → List ℕ
take zero cs = []
take (suc n) [] = []
take (suc n) (c ∷ cs) = c ∷ take n cs

-- The loop over the characters before the span, from a row and a column.
unfoldable pub line_col_from : ℕ → ℕ → List ℕ → ℕ × ℕ
line_col_from row col [] = (row, col)
line_col_from row col (c ∷ cs) =
    line_col_from (if c == b'\n' then row + 1 else row)
      (if c == b'\n' then 1 else if c == b'\r' then col else col + 1) cs

-- The first `start` characters are counted, though `start`, that of the span, is in bytes.
unfoldable pub calc_line_col : ℕ → List ℕ → ℕ × ℕ
calc_line_col start input = line_col_from 1 1 (take start input)

abbrev pub newlines : List ℕ → ℕ
newlines [] = 0
newlines (c ∷ cs) = if c == b'\n' then suc (newlines cs) else newlines cs

-- The characters but carriage returns
abbrev pub visible : List ℕ → ℕ
visible [] = 0
visible (c ∷ cs) = if c == b'\r' then visible cs else suc (visible cs)

abbrev pub is_ascii : ℕ → Bool
is_ascii c = ltb c 0x80

abbrev pub not_newline : ℕ → Bool
not_newline c = not (c == b'\n')

line_col_from-append :
    (a b : List ℕ) (row col : ℕ)
    → line_col_from row col (a ++ b)
      ≡ line_col_from (line_col_from row col a).0 (line_col_from row col a).1 b
unfolding line_col_from
line_col_from-append [] b row col = refl
line_col_from-append (c ∷ a) b row col = line_col_from-append a b _ _

rows : (row col : ℕ) (cs : List ℕ) → (line_col_from row col cs).0 ≡ row + newlines cs
unfolding line_col_from
rows row col [] = omega arith
rows row col (c ∷ cs) = ground (
  arith,
  rows (if c == b'\n' then row + 1 else row)
      (if c == b'\n' then 1 else if c == b'\r' then col else col + 1) cs,
)

line_cols :
    (row col : ℕ) (cs : List ℕ)
    → all not_newline cs ≡ true
    → (line_col_from row col cs).1 ≡ col + visible cs
unfolding line_col_from
line_cols row col [] h = omega arith
line_cols row col (c ∷ cs) h = ground (arith, line_cols row col cs, line_cols row (col + 1) cs)

take-length : (a b : List ℕ) → take (length a) (a ++ b) ≡ a
take-length [] b = refl
take-length (c ∷ a) b = ap (◌∷◌ c) (take-length a b)

-- A text of one-byte characters has as many bytes as characters.
length-ascii : (cs : List ℕ) → all is_ascii cs ≡ true → str_len cs ≡ length cs
unfolding str_len len_utf8
length-ascii [] h = refl
length-ascii (c ∷ cs) h =
    let rest : all is_ascii cs ≡ true → str_len cs ≡ length cs = length-ascii cs in ground arith

-- In a text of one-byte characters up to the position, a position in bytes in the line `line`, behind the newline
-- that ends `before`: the row is one more than the newlines in front of it, and the column one more than the
-- characters of the line in front of it, carriage returns aside.
pub calc_line_col-line :
    (before line after : List ℕ)
    → all is_ascii (before ++ b'\n' ∷ line) ≡ true
    → all not_newline line ≡ true
    → calc_line_col (str_len (before ++ b'\n' ∷ line)) ((before ++ b'\n' ∷ line) ++ after)
      ≡ (1 + newlines (before ++ b'\n' ∷ line), 1 + visible line)
unfolding calc_line_col line_col_from
calc_line_col-line before line after ascii h =
    let text = before ++ b'\n' ∷ line in
    let start = line_col_from 1 1 before in
    let split = line_col_from-append before (b'\n' ∷ line) 1 1 in
    let col : (line_col_from 1 1 text).1 ≡ 1 + visible line =
      ap (λ (p : ℕ × ℕ). p.1) split ∙ line_cols (start.0 + 1) 1 line h in
    ap (λ n. line_col_from 1 1 (take n (text ++ after))) (length-ascii text ascii)
    ∙ ap (line_col_from 1 1) (take-length text after)
    ∙ ap₂ (λ r c. (r, c)) (rows 1 1 text) col

-- Behind a character of two bytes, a position at the end of the line is counted into the next one, though no
-- newline is in front of it.
pub calc_line_col-wide :
    (c : ℕ) (after : List ℕ)
    → len_utf8 c ≡ 2
    → (c == b'\n') ≡ false
    → calc_line_col (str_len (c ∷ [])) (c ∷ b'\n' ∷ after) ≡ (2, 1)
unfolding calc_line_col line_col_from str_len
calc_line_col-wide c after h nl = rw (h, nl) refl
