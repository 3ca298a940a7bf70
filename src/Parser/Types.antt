-- ===== src/Parser/Types.antt =====
-- src/ast/parse.rs: `make_ty`, `make_array_type`, `make_types` and `make_path`, the parser of types.
-- The loops and the nesting of types are recursion on fuel. The number of a name, which the interner
-- gives, is a parameter.
pub mod Args
pub mod Print
pub mod Segs
pub mod Steps
pub mod RoundTrip
mod Tests
use Prim.Native.String.{String}
use text.Mathlib.Text.{◌==◌}
use enumc.Prelude.{
  ℕ, zero, suc, ◌+◌, ◌*◌, ◌^◌, ◌-◌, Bool, true, false, ◌||◌, List, [], ◌∷◌, ◌++◌, Option, none,
  some, ltb, within, if◌then◌else◌,
}
use enumc.Types.Ty.{
  Ty, array, path, ptr, const_str, int, char, float, bool, void, func, Types, nil, cons,
}
use enumc.Lexer.Token.{TokenKind, LiteralKind, decimal}
use enumc.Lexer.Match.{TokenMatch, matches}
use enumc.Parser.Stream.{
  Tok, ParseError, expected, invalid_int_literal, Parsed, done, failed, panic, out_of_fuel, Parse,
  pure, fail, then_at, ◌>>=◌, ◌>>◌, curr_kind, input_curr, eat_tkn, eat_if, eat_whitespace,
  eat_text, codes, make_seg,
}

-- The keywords of src/ast/parse/kw.rs
abbrev pub keywords : List String
keywords =
    "" ∷ "_" ∷ "size_of" ∷ "bottom" ∷ "as" ∷ "asm" ∷ "break" ∷ "const" ∷ "continue" ∷ "else"
    ∷ "enum" ∷ "false" ∷ "fn" ∷ "for" ∷ "if" ∷ "impl" ∷ "in" ∷ "let" ∷ "linked" ∷ "loop" ∷ "match"
    ∷ "mod" ∷ "move" ∷ "mut" ∷ "pub" ∷ "ref" ∷ "return" ∷ "exit" ∷ "struct" ∷ "trait" ∷ "true"
    ∷ "import" ∷ "while" ∷ []

abbrev pub one_of : String → List String → Bool
one_of text [] = false
one_of text (t ∷ texts) = text == t || one_of text texts

-- Whether `Keywords::try_from` succeeds
unfoldable pub is_keyword : String → Bool
is_keyword text = one_of text keywords

-- `parse::<usize>()` of the digits of a literal: `None` at another character, without a digit, and where
-- the number does not fit 64 bits.
unfoldable pub parse_digits : ℕ → List ℕ → Option ℕ
parse_digits n [] = if ltb n (2 ^ 64) then some n else none
parse_digits n (c ∷ cs) =
    let rest = parse_digits (n * 10 + (c - b'0')) cs in if within b'0' b'9' c then rest else none

abbrev pub parse_codes : List ℕ → Option ℕ
parse_codes [] = none
parse_codes (c ∷ cs) = parse_digits 0 (c ∷ cs)

unfoldable pub parse_usize : String → Option ℕ
parse_usize text = parse_codes (codes text)

-- The size of an array at a token: an error at what is no decimal literal, and at one that does not parse
abbrev pub parsed_size : Option ℕ → Parse ℕ
parsed_size none = fail invalid_int_literal
parsed_size (some size) = pure size

unfoldable pub array_size : TokenKind → String → Parse ℕ
array_size (TokenKind.literal (LiteralKind.int decimal empty_int) suffix_start) text =
    parsed_size (parse_usize text)
array_size kind text = fail expected

-- `make_array_type`, where `rec` is `make_ty`
unfoldable pub make_array_type : Parse Ty → Parse Ty
make_array_type rec toks = then_at (array_size (curr_kind toks) (input_curr toks) toks) (λ size.
    eat_if TokenMatch.literal
    >> (eat_whitespace
        >> (eat_if TokenMatch.semi
            >> (eat_whitespace
                >> (rec >>= (λ ty. eat_if TokenMatch.close_bracket >> pure (array size ty)))))))

abbrev pub to_types : List Ty → Types
to_types [] = nil
to_types (ty ∷ tys) = cons ty (to_types tys)

-- The loop of `make_types`
unfoldable pub types_loop : ℕ → Parse Ty → TokenMatch → List Ty → Parse (List Ty)
types_loop zero rec close tys toks = out_of_fuel
types_loop (suc fuel) rec close tys toks = then_at (eat_whitespace toks) (λ u.
    eat_if close >>= (λ closed. elim closed [
      | true ↦ pure tys
      | false ↦ rec >>= (λ ty. eat_if TokenMatch.comma >>= (λ more. elim more [
        | true ↦ eat_whitespace >> types_loop fuel rec close (tys ++ ty ∷ [])
        | false ↦ pure (tys ++ ty ∷ [])
      ]))
    ]))

unfoldable pub make_types : ℕ → Parse Ty → TokenMatch → TokenMatch → Parse (List Ty)
make_types fuel rec opening close = eat_if opening >>= (λ opened. elim opened [
  | true ↦ types_loop fuel rec close [] >>= (λ tys. eat_if close >> (eat_whitespace >> pure tys))
  | false ↦ pure []
])

-- The loop over the parameters of a function type
unfoldable pub params_loop : ℕ → Parse Ty → List Ty → Parse (List Ty)
params_loop zero rec params toks = out_of_fuel
params_loop (suc fuel) rec params toks = then_at (eat_whitespace toks) (λ u.
    eat_if TokenMatch.close_paren >>= (λ closed. elim closed [
      | true ↦ pure params
      | false ↦ rec >>= (λ ty.
          eat_whitespace
          >> (eat_if TokenMatch.comma >>= (λ more. elim more [
            | true ↦ eat_whitespace >> params_loop fuel rec (params ++ ty ∷ [])
            | false ↦ eat_if TokenMatch.close_paren >> pure (params ++ ty ∷ [])
          ])))
    ]))

-- The return type, `void` if there is no colon
unfoldable pub make_ret : Parse Ty → Parse Ty
make_ret rec =
    eat_if TokenMatch.colon
    >>= (λ typed. elim typed [ true ↦ eat_whitespace >> rec | false ↦ eat_whitespace >> pure void ])

-- The type of a function, whose `ident` is the dummy, number 0
unfoldable pub make_fn_type : ℕ → Parse Ty → Parse Ty
make_fn_type fuel rec toks = then_at (eat_text (input_curr toks == "fn") toks) (λ u.
    eat_if TokenMatch.open_paren
    >> (params_loop fuel rec []
        >>= (λ params. make_ret rec >>= (λ ret. pure (func 0 ret (to_types params))))))

-- A name that is a type by itself
unfoldable pub builtin : String → Option Ty
builtin text =
    if text == "void"
    then some void
    else if text == "bool"
    then some bool
    else if text == "char"
    then some char
    else if text == "int"
    then some int
    else if text == "float"
    then some float
    else if text == "cstr"
    then some (const_str 0)
    else none

module _ (number : String → ℕ) where
  abbrev pub numbers : List String → List ℕ
  numbers [] = []
  numbers (id ∷ ids) = number id ∷ numbers ids

  unfoldable pub make_path : ℕ → Parse (List ℕ)
  make_path fuel = make_seg fuel >>= (λ segs. pure (numbers segs))

  -- The type arguments behind a path are parsed and dropped.
  unfoldable pub path_type : ℕ → Parse Ty → Parse Ty
  path_type fuel rec = make_path fuel >>= (λ segs toks.
      elim (matches TokenMatch.lt (curr_kind toks)) [
        | true ↦ (make_types fuel rec TokenMatch.lt TokenMatch.gt >> pure (path segs)) toks
        | false ↦ done (path segs) toks
      ])

  abbrev pub builtin_or_path : Option Ty → ℕ → Parse Ty → Parse Ty
  builtin_or_path (some ty) fuel rec = pure ty
  builtin_or_path none fuel rec = path_type fuel rec

  -- The branch of an identifier
  unfoldable pub named_type : ℕ → Parse Ty → Parse Ty
  named_type fuel rec toks = elim (is_keyword (input_curr toks)) [
    | true ↦ elim (input_curr toks == "fn") [
      | true ↦ make_fn_type fuel rec toks
      | false ↦ failed expected
    ]
    | false ↦
        (builtin_or_path (builtin (input_curr toks)) fuel rec
            >>= (λ ty. eat_if TokenMatch.ident >> pure ty))
          toks
  ]

  unfoldable pub type_at : TokenKind → ℕ → Parse Ty → Parse Ty
  type_at TokenKind.ident fuel rec toks = named_type fuel rec toks
  type_at TokenKind.open_bracket fuel rec toks =
      (eat_if TokenMatch.open_bracket >> (eat_whitespace >> make_array_type rec)) toks
  type_at TokenKind.star fuel rec toks = (eat_tkn >> (rec >>= (λ ty. pure (ptr ty)))) toks
  type_at kind fuel rec toks = panic

  unfoldable pub make_ty : ℕ → Parse Ty
  make_ty zero toks = out_of_fuel
  make_ty (suc fuel) toks = type_at (curr_kind toks) fuel (make_ty fuel) toks
