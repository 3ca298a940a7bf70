-- ===== src/Parser/Types/Tests.antt =====
-- Runs of the parser of types, and its theorem at a concrete input.
use Prim.Native.String.{String}
use text.Mathlib.Text.{◌==◌}
use enumc.Prelude.{ℕ, ◌≡◌, refl, false, List, [], ◌∷◌, length, if◌then◌else◌, arith}
use enumc.Types.Ty.{array, path, ptr, const_str, int, func, nil, cons}
use enumc.Lexer.Token.{
  colon, comma, LiteralKind, decimal, ident, literal, semi, lt, gt, open_bracket, close_bracket, eq,
  bang,
}
use enumc.Lexer.Chars.{is_whitespace}
use enumc.Lexer.Match.{TokenMatch, matches}
use enumc.Parser.Eat.{eat_seq_ignore_ws, eat_until, count_from, count_eaten_seq, eat_attr}
use enumc.Parser.Types.Args.{make_type_args, args_loop}
use enumc.Parser.Stream.{
  Tok, done, failed, panic, expected, invalid_int_literal, codes, eat_if, eat_whitespace, make_seg,
  seg_loop, seg_start, cmp_seq_ignore_ws, without_blanks, zip_all, cmp_seq, eat_seq, make_ident,
  retain,
}
use enumc.Parser.Types.{
  make_ty, type_at, named_type, is_keyword, builtin, path_type, make_path, make_types, types_loop,
  make_array_type, array_size, parse_usize, parse_digits,
}
use enumc.Parser.Types.Print.{
  Written, name, names, pointer, sized, function, empty, param, tok, space, print, meant,
  is_written, fuel_of,
}
use enumc.Parser.Types.RoundTrip.{make_ty-print}

-- The number of a name is its length, but for `b`.
abbrev number : String → ℕ
number text = if text == "b" then 50 else length (codes text)

-- *[3; fn(int, a::b, ): cstr]
abbrev written_ty : Written
written_ty =
    pointer
      (sized "3" (function (param (name "int") (param (names "a" ("b" ∷ [])) empty)) (name "cstr")))

abbrev equals : List Tok
equals = tok eq "=" ∷ space ∷ []

make_ty-print_example :
    make_ty number 12 (print written_ty equals)
    ≡ done (ptr (array 3 (func 0 (const_str 0) (cons int (cons (path (1 ∷ 50 ∷ [])) nil))))) equals
unfolding fuel_of is_written is_keyword builtin parse_usize parse_digits meant is_whitespace
make_ty-print_example = make_ty-print number written_ty 12 equals (omega arith) refl refl

-- foo<int> =: the type argument is dropped.
dropped_arguments :
    make_ty number 5 (tok ident "foo" ∷ tok lt "<" ∷ tok ident "int" ∷ tok gt ">" ∷ space ∷ equals)
    ≡ done (path (3 ∷ [])) equals
unfolding make_ty type_at named_type is_keyword builtin path_type make_path make_seg seg_loop
    seg_start cmp_seq_ignore_ws without_blanks zip_all matches eat_seq eat_if make_ident
    eat_whitespace cmp_seq retain make_types types_loop is_whitespace
dropped_arguments = refl

-- A keyword, and a size with a suffix
keyword_type : make_ty number 5 (tok ident "let" ∷ equals) ≡ failed expected
unfolding make_ty type_at named_type is_keyword
keyword_type = refl

suffixed_size :
    make_ty number 5 (
      tok open_bracket "["
      ∷ tok (literal (LiteralKind.int decimal false) 1) "3u"
      ∷ tok semi ";"
      ∷ tok ident "int"
      ∷ tok close_bracket "]"
      ∷ equals)
    ≡ failed invalid_int_literal
unfolding make_ty type_at eat_if matches eat_whitespace make_array_type array_size parse_usize
    parse_digits
suffixed_size = refl

-- What begins no type is a panic.
no_type : make_ty number 5 (tok bang "!" ∷ equals) ≡ panic
unfolding make_ty type_at
no_type = refl

-- ::<int, b> =
type_args :
    make_type_args 4 (make_ty number 4) (
      tok colon ":"
      ∷ tok colon ":"
      ∷ tok lt "<"
      ∷ tok ident "int"
      ∷ tok comma ","
      ∷ space
      ∷ tok ident "b"
      ∷ tok gt ">"
      ∷ equals)
    ≡ done (int ∷ path (50 ∷ []) ∷ []) equals
unfolding make_type_args args_loop eat_seq_ignore_ws make_ty type_at named_type is_keyword builtin
    path_type make_path make_seg seg_loop seg_start cmp_seq_ignore_ws without_blanks zip_all matches
    eat_seq eat_if make_ident eat_whitespace cmp_seq retain is_whitespace
type_args = refl

-- The attribute is eaten with its bracket.
attribute :
    eat_attr (tok bang "#" ∷ tok open_bracket "[" ∷ tok ident "a" ∷ tok close_bracket "]" ∷ equals)
    ≡ done tt equals
unfolding eat_attr eat_until matches
attribute = refl

counted : count_eaten_seq TokenMatch.bang (tok bang "!" ∷ tok bang "!" ∷ equals) ≡ done 2 equals
unfolding count_eaten_seq count_from matches
counted = refl
