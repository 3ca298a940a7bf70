-- ===== src/Lexer/Tests.antt =====
-- Runs of the lexer, and the theorems about it at concrete inputs.
use Prim.Native.Char.{code}
use Prim.Native.String.{String}
use enumc.Prelude.{◌++◌, ℕ, ◌≡◌, refl, true, false, List, [], ◌∷◌, Option, none, some, arith}
use enumc.Lexer.Token.{DocStyle, LiteralKind, Base, RawStrError, Token, TokenKind}
use enumc.Lexer.Chars.{
  UnicodeXid, len_utf8, str_len, slice_from, is_whitespace, is_id_start, is_id_continue,
}
use enumc.Lexer.Cursor.{new}
use enumc.Lexer.Scan.{
  eat_while, line_comment, block_loop, block_comment, whitespace, eat_decimal_digits,
  eat_hexadecimal_digits, eat_float_exponent, single_quoted_string, double_quoted_string, ident,
  eat_literal_suffix,
}
use enumc.Lexer.RawString.{
  eat_opening_hashes, eat_closing_hashes, raw_loop, raw_contents, raw_starter,
  raw_string_unvalidated, validated, raw_double_quoted_string,
}
use enumc.Lexer.Number.{exponent, fraction, number_end, number_prefixed, number}
use enumc.Lexer.Advance.{
  symbol, suffixed, raw_literal, quoted_literal, char_literal, slash, after_r, after_b, digits,
  token_kind, advance_token, first_token, tokenize,
}
use enumc.Lexer.Cover.{Covers, tokenize-Covers}
use enumc.Lexer.BlockComments.{Nested, empty, char, comment, first_token-block_comment}
use enumc.Lexer.Strings.{first_token-str}
use enumc.Lexer.RawStrings.{hashes, first_token-raw_str}
use enumc.Lexer.RawFuel.{finished, raw_loop-finished}

-- The code points of a text.
abbrev codes : String → List ℕ
codes String.[] = []
codes (String.◌∷◌ c s) = code c ∷ codes s

-- No character beyond ASCII is an identifier's.
abbrev ascii : UnicodeXid
ascii = record { is_xid_start = λ c. false; is_xid_continue = λ c. false }

abbrev tok : TokenKind → ℕ → Token
tok kind len = record { kind = kind; len = len }

run_tokenize : ℕ → List ℕ → Option (List Token)
unfolding tokenize first_token advance_token new token_kind symbol char_literal slash after_r
    after_b digits number number_prefixed number_end fraction exponent suffixed raw_literal
    quoted_literal raw_double_quoted_string validated raw_string_unvalidated raw_starter
    raw_contents raw_loop eat_opening_hashes eat_closing_hashes eat_while line_comment block_loop
    block_comment whitespace eat_decimal_digits eat_hexadecimal_digits eat_float_exponent
    single_quoted_string double_quoted_string ident eat_literal_suffix slice_from str_len len_utf8
    is_whitespace is_id_start is_id_continue
run_tokenize = tokenize ascii

tokenize_let :
    run_tokenize 99 (codes "let x=0x1f;")
    ≡ some (
        tok TokenKind.ident 3
        ∷ tok TokenKind.whitespace 1
        ∷ tok TokenKind.ident 1
        ∷ tok TokenKind.eq 1
        ∷ tok (TokenKind.literal (LiteralKind.int Base.hexadecimal false) 4) 4
        ∷ tok TokenKind.semi 1
        ∷ [])
unfolding run_tokenize
tokenize_let = refl

tokenize_literals :
    run_tokenize 99 (codes "1.5e+ 'a' b\"x\" r#\"a\"# 12.foo")
    ≡ some (
        tok (TokenKind.literal (LiteralKind.float Base.decimal true) 5) 5
        ∷ tok TokenKind.whitespace 1
        ∷ tok (TokenKind.literal (LiteralKind.char true) 3) 3
        ∷ tok TokenKind.whitespace 1
        ∷ tok (TokenKind.literal (LiteralKind.byte_str true) 4) 4
        ∷ tok TokenKind.whitespace 1
        ∷ tok (TokenKind.literal (LiteralKind.raw_str 1 none) 6) 6
        ∷ tok TokenKind.whitespace 1
        ∷ tok (TokenKind.literal (LiteralKind.int Base.decimal false) 2) 2
        ∷ tok TokenKind.dot 1
        ∷ tok TokenKind.ident 3
        ∷ [])
unfolding run_tokenize
tokenize_literals = refl

-- The documentation of `RawStrError`: `r###"abcde"##`
tokenize_raw_error :
    run_tokenize 99 (codes "r###\"abcde\"##")
    ≡ some (
        tok
          (TokenKind.literal
            (LiteralKind.raw_str 3 (some (RawStrError.no_terminator 3 2 (some 11))))
            13)
          13
        ∷ [])
unfolding run_tokenize
tokenize_raw_error = refl

-- Bytes, not characters.
tokenize_utf8 :
    run_tokenize 99 (0xE9 ∷ codes "/*")
    ≡ some (tok TokenKind.unknown 2 ∷ tok (TokenKind.block_comment none false) 2 ∷ [])
unfolding run_tokenize
tokenize_utf8 = refl

abbrev program : List ℕ
program = codes "fn f(){} // ok"

tokenize-Covers_example :
    (ts : List Token) × (tokenize ascii 14 program ≡ some ts) × Covers ts program
tokenize-Covers_example = tokenize-Covers ascii 14 program (omega arith)

inner_text-Nested : Nested (codes "* a /* b */ ")
inner_text-Nested = char b'*' refl (
    char b' ' refl (
      char b'a' refl (
        char b' ' refl (
          comment (codes " b ") (codes " ") refl
            (char b' ' refl (char b'b' refl (char b' ' refl empty))) (char b' ' refl empty)))))

first_token-block_comment_example :
    first_token ascii (codes "/** a /* b */ */x")
    ≡ some (
        tok
          (TokenKind.block_comment (some DocStyle.outer) true)
          (str_len (codes "/** a /* b */ */")))
first_token-block_comment_example =
    first_token-block_comment ascii (codes "* a /* b */ ") (codes "x") inner_text-Nested

first_token-str_example :
    first_token ascii (codes "\"a\\\"b\\\\\";")
    ≡ some (
        tok
          (TokenKind.literal (LiteralKind.str true) (str_len (codes "\"a\\\"b\\\\\"")))
          (str_len (codes "\"a\\\"b\\\\\"")))
unfolding is_id_start
first_token-str_example = first_token-str ascii (codes "a\"b\\") (codes ";") refl

-- `r##"a#"##` in front of `#`
first_token-raw_str_example :
    first_token ascii
      (b'r' ∷ (hashes 2 ++ b'"' ∷ (b'a' ∷ b'#' ∷ [] ++ (b'"' ∷ hashes 2))) ++ b'#' ∷ [])
    ≡ some (tok (TokenKind.literal (LiteralKind.raw_str 2 none) 9) 9)
unfolding str_len len_utf8 is_id_start
first_token-raw_str_example =
    first_token-raw_str ascii 2 (b'a' ∷ b'#' ∷ []) (b'#' ∷ []) refl (omega arith) refl

raw_loop-finished_example :
    finished
      (raw_loop 4
        (record { prefix_len = 1; start_pos = 1; n_start_hashes = 1 })
        none
        0
        (new (b'a' ∷ b'"' ∷ b'#' ∷ []))).0
    ≡ true
raw_loop-finished_example =
    raw_loop-finished 4 (record { prefix_len = 1; start_pos = 1; n_start_hashes = 1 }) none 0
      (new (b'a' ∷ b'"' ∷ b'#' ∷ [])) (unfold new in omega arith)
