-- ===== src/Lexer/Forward/Scan.antt =====
-- The methods of Lexer.Scan go forward.
use enumc.Prelude.{ℕ, ◌||◌, ◌&&◌, ◌+◌, ◌-◌, not, Bool, false, List, [], ◌∷◌, ◌≡◌, refl, ◌==◌}
use enumc.Lexer.Chars.{UnicodeXid, is_whitespace, is_id_start, is_id_continue}
use enumc.Lexer.Cursor.{Cursor, first, second}
use enumc.Lexer.Forward.{
  Forward, Forward-refl, Forward-trans, take-Forward, take_two-Forward, if-Forward,
  if-Forward_result, if-Forward_method, bump-Forward,
}
use enumc.Lexer.Scan.{
  eat_while_in, eat_while, line_comment, block_loop, block_comment, whitespace, eat_digits_in,
  eat_decimal_digits, eat_hexadecimal_digits, eat_float_exponent, single_quoted_in,
  single_quoted_string, double_quoted_in, double_quoted_string, ident, eat_literal_suffix,
}

eat_while_in-Forward :
    (xs : List ℕ) (p : ℕ → Bool) (c : Cursor) → c.chars ≡ xs → Forward c (eat_while_in xs p c)
unfolding eat_while_in
eat_while_in-Forward [] p c e = Forward-refl c
eat_while_in-Forward (x ∷ xs) p c e =
    if-Forward (p x) (Forward-trans (take-Forward c x xs e) (eat_while_in-Forward xs p _ refl))
      (Forward-refl c)

pub eat_while-Forward : (p : ℕ → Bool) (c : Cursor) → Forward c (eat_while p c).1
unfolding eat_while
eat_while-Forward p c = eat_while_in-Forward c.chars p c refl

pub line_comment-Forward : (c : Cursor) → Forward c (line_comment c).1
unfolding line_comment
line_comment-Forward c = Forward-trans (bump-Forward c) (eat_while-Forward _ _)

block_loop-Forward :
    (xs : List ℕ) (depth : ℕ) (c : Cursor) → c.chars ≡ xs → Forward c (block_loop xs depth c).1
unfolding block_loop
block_loop-Forward [] depth c e = Forward-refl c
block_loop-Forward (x ∷ []) depth c e = take-Forward c x [] e
block_loop-Forward (x ∷ y ∷ xs) depth c e =
    let two =
      λ (d : ℕ). Forward-trans (take_two-Forward c x y xs e) (block_loop-Forward xs d _ refl) in
    if-Forward_result (x == b'/' && y == b'*') _ _ (two (depth + 1)) (
      if-Forward_result (x == b'*' && y == b'/') _ _
        (if-Forward_result (depth - 1 == 0) _ _ (take_two-Forward c x y xs e) (two (depth - 1)))
        (Forward-trans (take-Forward c x (y ∷ xs) e) (block_loop-Forward (y ∷ xs) depth _ refl)))

pub block_comment-Forward : (c : Cursor) → Forward c (block_comment c).1
unfolding block_comment
block_comment-Forward c = Forward-trans (bump-Forward c) (block_loop-Forward _ 1 _ refl)

pub whitespace-Forward : (c : Cursor) → Forward c (whitespace c).1
unfolding whitespace
whitespace-Forward c = eat_while-Forward is_whitespace c

eat_digits_in-Forward :
    (digit : ℕ → Bool) (xs : List ℕ) (h : Bool) (c : Cursor)
    → c.chars ≡ xs
    → Forward c (eat_digits_in digit xs h c).1
unfolding eat_digits_in
eat_digits_in-Forward digit [] h c e = Forward-refl c
eat_digits_in-Forward digit (x ∷ xs) h c e =
    if-Forward_result (x == b'_' || digit x) _ _
      (Forward-trans (take-Forward c x xs e) (eat_digits_in-Forward digit xs _ _ refl))
      (Forward-refl c)

pub eat_decimal_digits-Forward : (c : Cursor) → Forward c (eat_decimal_digits c).1
unfolding eat_decimal_digits
eat_decimal_digits-Forward c = eat_digits_in-Forward _ c.chars false c refl

pub eat_hexadecimal_digits-Forward : (c : Cursor) → Forward c (eat_hexadecimal_digits c).1
unfolding eat_hexadecimal_digits
eat_hexadecimal_digits-Forward c = eat_digits_in-Forward _ c.chars false c refl

pub eat_float_exponent-Forward : (c : Cursor) → Forward c (eat_float_exponent c).1
unfolding eat_float_exponent
eat_float_exponent-Forward c =
    if-Forward_method ((first c).0 == b'-' || (first c).0 == b'+') _ _ c
      (Forward-trans (bump-Forward c) (eat_decimal_digits-Forward _)) (eat_decimal_digits-Forward c)

single_quoted_in-Forward :
    (xs : List ℕ) (c : Cursor) → c.chars ≡ xs → Forward c (single_quoted_in xs c).1
unfolding single_quoted_in
single_quoted_in-Forward [] c e = Forward-refl c
single_quoted_in-Forward (x ∷ []) c e =
    if-Forward_result (x == b'\'') _ _ (take-Forward c x [] e)
      (if-Forward_result (x == b'/' || x == b'\n') _ _ (Forward-refl c) (take-Forward c x [] e))
single_quoted_in-Forward (x ∷ y ∷ xs) c e =
    let one = take-Forward c x (y ∷ xs) e in
    let two = take_two-Forward c x y xs e in
    if-Forward_result (x == b'\'') _ _ one (
      if-Forward_result (x == b'/') _ _ (Forward-refl c) (
        if-Forward_result (x == b'\n' && not (y == b'\'')) _ _ (Forward-refl c) (
          if-Forward_result (x == b'\\') _ _
            (Forward-trans two (single_quoted_in-Forward xs _ refl))
            (Forward-trans one (single_quoted_in-Forward (y ∷ xs) _ refl)))))

pub single_quoted_string-Forward : (c : Cursor) → Forward c (single_quoted_string c).1
unfolding single_quoted_string
single_quoted_string-Forward c =
    if-Forward_method ((second c).0 == b'\'' && not ((first c).0 == b'\\')) _ _ c
      (Forward-trans (bump-Forward c) (bump-Forward _)) (single_quoted_in-Forward _ c refl)

double_quoted_in-Forward :
    (xs : List ℕ) (c : Cursor) → c.chars ≡ xs → Forward c (double_quoted_in xs c).1
unfolding double_quoted_in
double_quoted_in-Forward [] c e = Forward-refl c
double_quoted_in-Forward (x ∷ []) c e = take-Forward c x [] e
double_quoted_in-Forward (x ∷ y ∷ xs) c e =
    let one = take-Forward c x (y ∷ xs) e in
    let two = take_two-Forward c x y xs e in
    if-Forward_result (x == b'"') _ _ one (
      if-Forward_result (x == b'\\' && (y == b'\\' || y == b'"')) _ _
        (Forward-trans two (double_quoted_in-Forward xs _ refl))
        (Forward-trans one (double_quoted_in-Forward (y ∷ xs) _ refl)))

pub double_quoted_string-Forward : (c : Cursor) → Forward c (double_quoted_string c).1
unfolding double_quoted_string
double_quoted_string-Forward c = double_quoted_in-Forward c.chars c refl

module _ (u : UnicodeXid) where
  pub ident-Forward : (c : Cursor) → Forward c (ident u c).1
  unfolding ident
  ident-Forward c = eat_while-Forward _ c

  pub eat_literal_suffix-Forward : (c : Cursor) → Forward c (eat_literal_suffix u c).1
  unfolding eat_literal_suffix
  eat_literal_suffix-Forward c =
      if-Forward_method (not (is_id_start u (first c).0)) _ _ c (Forward-refl c)
        (Forward-trans (bump-Forward c) (eat_while-Forward (is_id_continue u) _))
