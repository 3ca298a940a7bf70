-- ===== src/Lexer/Forward/Literals.antt =====
-- The methods of Lexer.RawString and Lexer.Number go forward.
use enumc.Prelude.{
  ℕ, zero, suc, ◌+◌, ◌||◌, ◌&&◌, not, List, [], ◌∷◌, Bool, true, Option, none, some, ◌≡◌, refl, ltb,
  ◌==◌, length,
}
use enumc.Lexer.Chars.{UnicodeXid, is_id_start}
use enumc.Lexer.Token.{Base, decimal, binary, octal, hexadecimal}
use enumc.Lexer.Cursor.{Cursor, first, second, bump, is_eof, len_consumed}
use enumc.Lexer.Scan.{eat_while, is_digit, eat_decimal_digits}
use enumc.Lexer.RawString.{
  eat_opening_in, eat_opening_hashes, eat_closing_in, eat_closing_hashes, Opened, raw_loop,
  raw_contents, raw_string_unvalidated, raw_starter, raw_double_quoted_string,
}
use enumc.Lexer.Number.{exponent, fraction, number_end, number_prefixed, number}
use enumc.Lexer.Forward.{
  Forward, Forward-refl, Forward-trans, take-Forward, if-Forward_result, if-Forward_method,
  bump-Forward,
}
use enumc.Lexer.Forward.Scan.{
  eat_while-Forward, eat_decimal_digits-Forward, eat_hexadecimal_digits-Forward,
  eat_float_exponent-Forward,
}

eat_opening_in-Forward :
    (xs : List ℕ) (n : ℕ) (c : Cursor) → c.chars ≡ xs → Forward c (eat_opening_in xs n c).1
unfolding eat_opening_in
eat_opening_in-Forward [] n c e = Forward-refl c
eat_opening_in-Forward (x ∷ xs) n c e =
    if-Forward_result (x == b'#') _ _
      (Forward-trans (take-Forward c x xs e) (eat_opening_in-Forward xs (n + 1) _ refl))
      (Forward-refl c)

pub eat_opening_hashes-Forward : (c : Cursor) → Forward c (eat_opening_hashes c).1
unfolding eat_opening_hashes
eat_opening_hashes-Forward c = eat_opening_in-Forward c.chars 0 c refl

eat_closing_in-Forward :
    (xs : List ℕ) (n k : ℕ) (c : Cursor) → c.chars ≡ xs → Forward c (eat_closing_in xs n k c).1
unfolding eat_closing_in
eat_closing_in-Forward [] n k c e = Forward-refl c
eat_closing_in-Forward (x ∷ xs) n k c e =
    if-Forward_result (x == b'#' && ltb k n) _ _
      (Forward-trans (take-Forward c x xs e) (eat_closing_in-Forward xs n (k + 1) _ refl))
      (Forward-refl c)

pub eat_closing_hashes-Forward : (n : ℕ) (c : Cursor) → Forward c (eat_closing_hashes n c).1
unfolding eat_closing_hashes
eat_closing_hashes-Forward n c = eat_closing_in-Forward c.chars n 0 c refl

pub raw_loop-Forward :
    (fuel : ℕ) (o : Opened) (offset : Option ℕ) (most : ℕ) (c : Cursor)
    → Forward c (raw_loop fuel o offset most c).1
unfolding raw_loop
raw_loop-Forward zero o offset most c = Forward-refl c
raw_loop-Forward (suc fuel) o offset most c =
    let at_quote = (eat_while (λ x. not (x == b'"')) c).1 in
    let closed = eat_closing_hashes o.n_start_hashes (bump at_quote).1 in
    let up_to = eat_while-Forward (λ x. not (x == b'"')) c in
    let behind = Forward-trans up_to (
      Forward-trans (bump-Forward at_quote)
        (eat_closing_hashes-Forward o.n_start_hashes (bump at_quote).1)) in
    if-Forward_method (is_eof at_quote).0 _ _ at_quote up_to (
      if-Forward_method (closed.0 == o.n_start_hashes) _ _ closed.1 behind (
        if-Forward_method (ltb most closed.0) _ _ closed.1
          (Forward-trans behind (raw_loop-Forward fuel o _ _ _))
          (Forward-trans behind (raw_loop-Forward fuel o _ _ _))))

raw_starter-Forward : (o : Opened) (b : Option ℕ) (c : Cursor) → Forward c (raw_starter o b c).1
unfolding raw_starter raw_contents
raw_starter-Forward o none c = Forward-refl c
raw_starter-Forward o (some x) c =
    if-Forward_method (x == b'"') _ _ c (raw_loop-Forward (suc (length c.chars)) o none 0 c)
      (Forward-refl c)

pub raw_double_quoted_string-Forward :
    (prefix_len : ℕ) (c : Cursor) → Forward c (raw_double_quoted_string prefix_len c).1
unfolding raw_double_quoted_string raw_string_unvalidated
raw_double_quoted_string-Forward prefix_len c =
    let n = eat_opening_hashes c in
    let o : Opened = record {
      prefix_len = prefix_len;
      start_pos = (len_consumed c).0;
      n_start_hashes = n.0;
    } in
    Forward-trans (eat_opening_hashes-Forward c)
      (Forward-trans (bump-Forward n.1) (raw_starter-Forward o (bump n.1).0 (bump n.1).1))

pub exponent-Forward : (base : Base) (c : Cursor) → Forward c (exponent base c).1
unfolding exponent
exponent-Forward base c = Forward-trans (bump-Forward c) (eat_float_exponent-Forward _)

pub fraction-Forward : (base : Base) (c : Cursor) → Forward c (fraction base c).1
unfolding fraction
fraction-Forward base c =
    let d = eat_decimal_digits c in
    if-Forward_method (is_digit (first c).0) _ _ c
      (Forward-trans (eat_decimal_digits-Forward c) (
        if-Forward_method ((first d.1).0 == b'e' || (first d.1).0 == b'E') _ _ d.1
          (exponent-Forward base d.1) (Forward-refl d.1)))
      (Forward-refl c)

module _ (u : UnicodeXid) where
  pub number_end-Forward : (base : Base) (c : Cursor) → Forward c (number_end u base c).1
  unfolding number_end
  number_end-Forward base c =
      let f = (first c).0 in
      let s = (second c).0 in
      if-Forward_method (f == b'.' && (not (s == b'.') && not (is_id_start u s))) _ _ c
        (Forward-trans (bump-Forward c) (fraction-Forward base _))
        (if-Forward_method (f == b'e' || f == b'E') _ _ c (exponent-Forward base c)
          (Forward-refl c))

  pub number_prefixed-Forward :
      (base : Base) (h : Bool) (c : Cursor) → Forward c (number_prefixed u base h c).1
  unfolding number_prefixed
  number_prefixed-Forward base h c =
      if-Forward_method (not h) _ _ c (Forward-refl c) (number_end-Forward base c)

  pub number-Forward : (digit : ℕ) (c : Cursor) → Forward c (number u digit c).1
  unfolding number
  number-Forward digit c =
      let f = (first c).0 in
      let prefixed = λ (base : Base). Forward-trans (bump-Forward c) (
        Forward-trans (eat_decimal_digits-Forward _)
          (number_prefixed-Forward base (eat_decimal_digits (bump c).1).0 _)) in
      if-Forward_method (digit == b'0') _ _ c
        (if-Forward_method (f == b'b') _ _ c (prefixed binary) (
          if-Forward_method (f == b'o') _ _ c (prefixed octal) (
            if-Forward_method (f == b'x') _ _ c
              (Forward-trans (bump-Forward c) (
                Forward-trans (eat_hexadecimal_digits-Forward _)
                  (number_prefixed-Forward hexadecimal _ _)))
              (if-Forward_method (is_digit f || f == b'_' || f == b'.' || f == b'e' || f == b'E') _
                _ c
                (Forward-trans (eat_decimal_digits-Forward c)
                  (number_prefixed-Forward decimal true _))
                (Forward-refl c)))))
        (Forward-trans (eat_decimal_digits-Forward c) (number_end-Forward decimal _))
