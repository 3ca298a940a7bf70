-- ===== src/Parser/Decls/Tests.antt =====
-- Runs of the parsers of declarations and of operators, and their theorems at concrete inputs.
use Prim.Native.String.{String}
use enumc.Prelude.{ℕ, ◌≡◌, refl, [], ◌∷◌, none, some, length, arith}
use enumc.Types.Ty.{array, path, ptr, int}
use enumc.Lexer.Chars.{is_whitespace}
use enumc.Lexer.Token.{ident, comma, open_brace, close_brace, open_paren, close_paren, eof, lt}
use enumc.Lexer.Match.{matches}
use enumc.Parser.Ops.{AssocOp, is_assign_like}
use enumc.Parser.MakeOp.{make_op, op_at, after_lt, op_kinds, print_kinds, blank, make_op-print}
use enumc.Parser.Stream.{Tok, done, panic, codes, eat_if, eat_whitespace, eat_text, make_ident}
use enumc.Parser.Types.{
  make_ty, type_at, named_type, is_keyword, builtin, make_types, types_loop, parse_usize,
  parse_digits,
}
use enumc.Parser.Types.Print.{name, names, pointer, sized, tok, space, meant, is_written, fuel_of}
use enumc.Parser.Decls.{
  parse_struct, parse_enum, make_head, make_generics, make_variants, variants_loop,
}
use enumc.Parser.Decls.Print.{WrittenStruct, print_struct, is_struct, fuel_of_struct, meant_struct}
use enumc.Parser.Decls.RoundTrip.{parse_struct-print}

-- The number of a name is its length.
abbrev number : String → ℕ
number text = length (codes text)

-- struct pair<T, UU: a::bcd> { left: *T, items: [4; int]}
abbrev pair : WrittenStruct
pair = record {
  name = "pair";
  generics =
      record { name = "T"; bound = none }
      ∷ record { name = "UU"; bound = some ("a", "bcd" ∷ []) }
      ∷ [];
  fields =
      record { name = "left"; ty = pointer (names "T" []) }
      ∷ record { name = "items"; ty = sized "4" (name "int") }
      ∷ [];
}

abbrev the_end : Tok
the_end = tok eof ""

parse_struct-print_example :
    parse_struct number 20 (print_struct pair (the_end ∷ []))
    ≡ done
        (record {
          ident = 4;
          fields =
              record { ident = 4; ty = ptr (path (1 ∷ [])) }
              ∷ record { ident = 5; ty = array 4 int }
              ∷ [];
          generics =
              record { ident = 1; bound = none }
              ∷ record { ident = 2; bound = some (1 ∷ 3 ∷ []) }
              ∷ [];
        })
        (the_end ∷ [])
unfolding is_struct fuel_of_struct meant_struct is_written fuel_of meant is_keyword builtin
    parse_usize parse_digits is_whitespace
parse_struct-print_example = parse_struct-print number pair 20 the_end [] (omega arith) refl

-- enum e { none, some(int)}
parsed_enum :
    parse_enum number 6 (
      tok ident "enum"
      ∷ space
      ∷ tok ident "e"
      ∷ space
      ∷ tok open_brace "{"
      ∷ space
      ∷ tok ident "none"
      ∷ tok comma ","
      ∷ space
      ∷ tok ident "of"
      ∷ tok open_paren "("
      ∷ tok ident "int"
      ∷ tok close_paren ")"
      ∷ tok comma ","
      ∷ space
      ∷ tok close_brace "}"
      ∷ the_end
      ∷ [])
    ≡ done
        (record {
          ident = 1;
          variants = record { ident = 4; types = [] } ∷ record { ident = 2; types = int ∷ [] } ∷ [];
          generics = [];
        })
        (the_end ∷ [])
unfolding parse_enum make_head make_generics make_variants variants_loop make_types types_loop
    make_ty type_at named_type is_keyword builtin eat_if eat_whitespace eat_text make_ident matches
parsed_enum = refl

make_op-print_example :
    make_op (print_kinds (op_kinds AssocOp.less) (space ∷ the_end ∷ []))
    ≡ done (some AssocOp.less) (space ∷ the_end ∷ [])
unfolding is_assign_like
make_op-print_example = make_op-print AssocOp.less blank " " (the_end ∷ []) refl

-- `a <(b)`: what is no name, literal or white space behind `<` is a panic.
less_paren : make_op (tok lt "<" ∷ tok open_paren "(" ∷ the_end ∷ []) ≡ panic
unfolding make_op op_at after_lt eat_if matches
less_paren = refl
