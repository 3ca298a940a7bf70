-- ===== src/Lexer/Number.antt =====
-- src/ast/lex.rs: numeric literals.
use enumc.Prelude.{◌||◌, ◌&&◌, ℕ, Bool, true, false, not, ◌==◌, if◌then◌else◌}
use enumc.Lexer.Token.{Base, decimal, binary, octal, hexadecimal, LiteralKind, int, float}
use enumc.Lexer.Chars.{UnicodeXid, is_id_start}
use enumc.Lexer.Cursor.{Lex, pure, ◌>>=◌, ◌>>◌, first, second, bump}
use enumc.Lexer.Scan.{is_digit, eat_decimal_digits, eat_hexadecimal_digits, eat_float_exponent}

unfoldable pub exponent : Base → Lex LiteralKind
exponent base = do bump; some_digit ← eat_float_exponent; pure (float base (not some_digit))

-- Behind the `.` of a float.
unfoldable pub fraction : Base → Lex LiteralKind
fraction base = do
  f ← first
  if is_digit f
      then (do
        eat_decimal_digits
        e ← first
        if e == b'e' || e == b'E' then exponent base else pure (float base false))
      else pure (float base false)

module _ (u : UnicodeXid) where
  -- The match behind the digits.
  unfoldable pub number_end : Base → Lex LiteralKind
  number_end base = do
    f ← first
    s ← second
    if f == b'.' && (not (s == b'.') && not (is_id_start u s))
        then (do bump; fraction base)
        else if f == b'e' || f == b'E'
        then exponent base
        else pure (int base false)

  -- A prefix with no digits behind it ends the literal.
  unfoldable pub number_prefixed : Base → Bool → Lex LiteralKind
  number_prefixed base has_digits = if not has_digits then pure (int base true) else number_end base

  unfoldable pub number : ℕ → Lex LiteralKind
  number first_digit =
      if first_digit == b'0'
      then (do
        f ← first
        if f == b'b'
            then (do bump; has_digits ← eat_decimal_digits; number_prefixed binary has_digits)
            else if f == b'o'
            then (do bump; has_digits ← eat_decimal_digits; number_prefixed octal has_digits)
            else if f == b'x'
            then (do
              bump
              has_digits ← eat_hexadecimal_digits
              number_prefixed hexadecimal has_digits)
            else if is_digit f || f == b'_' || f == b'.' || f == b'e' || f == b'E'
            then (do eat_decimal_digits; number_prefixed decimal true)
            else pure (int decimal false))
      else (do eat_decimal_digits; number_end decimal)
