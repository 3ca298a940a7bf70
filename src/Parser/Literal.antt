-- ===== src/Parser/Literal.antt =====
-- src/ast/parse.rs: `make_literal`; src/data_struc/str_help.rs: `StripEscape`. The value of a float, which
-- `parse::<f64>` gives for a sign and a text, is a parameter; so is the number of a name.
pub mod Laws
use Prim.Native.String.{String}
use text.Mathlib.Text.{◌==◌}
use enumc.Prelude.{ℕ, ◌^◌, Bool, true, false, List, [], ◌∷◌, Option, none, some, ltb, if◌then◌else◌}
use enumc.Prelude
use enumc.Lexer.Chars.{str_len}
use enumc.Lexer.Token.{TokenKind, LiteralKind}
use enumc.Lexer.Match.{TokenMatch}
use enumc.Lir.Isize.{ℤ, signed}
use enumc.Parser.Stream.{
  ParseError, expected, invalid_int_literal, invalid_float_literal, Parse, done, failed, panic,
  pure, fail, then_at, ◌>>=◌, ◌>>◌, curr_kind, input_curr, eat_if, codes,
}
use enumc.Parser.Eat.{eat_if_kw}
use enumc.Parser.Types.{parse_usize, is_keyword}

-- `ast::Val`; a float is its bits, a string the number of its text.
pub data Value : Type 0 where
  float : ℕ → Value
  int : ℤ → Value
  char : ℕ → Value
  bool : Bool → Value
  str : ℕ → Value

-- What `StripEscape::next` returns, with the characters that are left: the end, a character, or a panic.
pub data Stripped : Type 0 where
  ended unreachable : Stripped
  got : ℕ → List ℕ → Stripped

-- Behind a backslash
unfoldable pub escaped : List ℕ → Stripped
escaped [] = unreachable
escaped (c ∷ s) =
    if Prelude.◌==◌ c b'n'
    then got b'\n' s
    else if Prelude.◌==◌ c b't'
    then got b'\t' s
    else if Prelude.◌==◌ c b'f'
    then got b'\r' s
    else if Prelude.◌==◌ c b'0'
    then got 0 s
    else if Prelude.◌==◌ c b'\\'
    then got b'\\' s
    else unreachable

unfoldable pub strip_next : List ℕ → Stripped
strip_next [] = ended
strip_next (c ∷ s) =
    let rest = strip_next s in
    if Prelude.◌==◌ c b'\\' then escaped s else if Prelude.◌==◌ c b'"' then rest else got c s

-- All but the last character, which is one byte; `none` is the panic of a slice.
unfoldable pub until_last : List ℕ → Option (List ℕ)
until_last [] = none
until_last (c ∷ []) = if ltb c 0x80 then some [] else none
until_last (c ∷ d ∷ cs) = elim (until_last (d ∷ cs)) [ none ↦ none | some s ↦ some (c ∷ s) ]

-- `text[1..text.len() - 1]`
unfoldable pub between : List ℕ → Option (List ℕ)
between [] = none
between (c ∷ cs) = if ltb c 0x80 then until_last cs else none

-- `replace('\\', "")`
unfoldable pub without_backslashes : List ℕ → List ℕ
without_backslashes [] = []
without_backslashes (c ∷ cs) =
    let rest = without_backslashes cs in if Prelude.◌==◌ c b'\\' then rest else c ∷ rest

abbrev pub stripped_char : Stripped → Parse Value
stripped_char (got c s) toks = done (char c) toks
stripped_char ended toks = panic
stripped_char unreachable toks = panic

abbrev pub char_between : Option (List ℕ) → Parse Value
char_between none toks = panic
char_between (some text) toks =
    if Prelude.◌==◌ (str_len (without_backslashes text)) 1
    then stripped_char (strip_next text) toks
    else failed expected

unfoldable pub char_value : String → Parse Value
char_value text = char_between (between (codes text))

-- `remove(0)` and `pop`
abbrev pub without_last : String → String
without_last String.[] = ""
without_last (String.◌∷◌ c String.[]) = ""
without_last (String.◌∷◌ c (String.◌∷◌ d s)) = String.◌∷◌ c (without_last (String.◌∷◌ d s))

-- `parse::<isize>` of the digits of a literal
unfoldable pub parse_isize : String → Option ℕ
parse_isize text = elim (parse_usize text) [
  | none ↦ none
  | some n ↦ if ltb n (2 ^ 63) then some n else none
]

abbrev pub int_value : Bool → Option ℕ → Parse Value
int_value neg none = fail invalid_int_literal
int_value neg (some n) = pure (int (signed neg n))

abbrev pub float_value : Option ℕ → Parse Value
float_value none = fail invalid_float_literal
float_value (some bits) = pure (float bits)

-- The branch of a keyword, of which only `true` and `false` are literals
unfoldable pub keyword_value : String → Parse Value
keyword_value text toks = elim (is_keyword text) [
  | false ↦ failed expected
  | true ↦ elim (text == "true") [
    | true ↦ (eat_if_kw "true" >> pure (bool true)) toks
    | false ↦ elim (text == "false") [
      | true ↦ (eat_if_kw "false" >> pure (bool false)) toks
      | false ↦ panic
    ]
  ]
]

module _ (number : String → ℕ) (parse_f64 : Bool → String → Option ℕ) where
  abbrev pub str_value : String → Parse Value
  str_value String.[] toks = panic
  str_value (String.◌∷◌ c s) toks = done (str (number (without_last s))) toks

  unfoldable pub literal_value : LiteralKind → Bool → String → Parse Value
  literal_value (LiteralKind.int base empty_int) neg text = int_value neg (parse_isize text)
  literal_value (LiteralKind.float base empty_exponent) neg text = float_value (parse_f64 neg text)
  literal_value (LiteralKind.char terminated) false text = char_value text
  literal_value (LiteralKind.str terminated) false text = str_value text
  literal_value kind neg text = λ toks. panic

  unfoldable pub literal_at : TokenKind → Bool → Parse Value
  literal_at TokenKind.ident neg toks = keyword_value (input_curr toks) toks
  literal_at (TokenKind.literal kind suffix_start) neg toks =
      (literal_value kind neg (input_curr toks) >>= (λ val. eat_if TokenMatch.literal >> pure val))
        toks
  literal_at kind neg toks = failed expected

  unfoldable pub make_literal : Parse Value
  make_literal toks =
      then_at (eat_if TokenMatch.minus toks) (λ neg rest. literal_at (curr_kind rest) neg rest)
