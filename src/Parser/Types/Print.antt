-- ===== src/Parser/Types/Print.antt =====
-- src/ast/parse.rs: the tokens of a written type.
use Prim.Native.String.{String}
use enumc.Prelude.{
  ℕ, Bool, true, false, not, ◌&&◌, List, [], ◌∷◌, ◌++◌, Option, none, some, all, suc, ◌+◌, length,
}
use enumc.Lexer.Chars.{is_whitespace}
use enumc.Lexer.Token.{
  TokenKind, LiteralKind, decimal, whitespace, ident, literal, semi, comma, colon, star,
  open_bracket, close_bracket, open_paren, close_paren,
}
use enumc.Types.Ty.{Ty, array, path, ptr, void, func}
use enumc.Parser.Stream.{Tok, codes}
use enumc.Parser.Types.{is_keyword, builtin, parse_usize, numbers, to_types}

-- A type as it is written: a name that is a type, a path of a name and the names behind `::`, `*ty`,
-- `[size; ty]` and `fn(params): ret`
mutual
  pub data Written : Type 0 where
    name : String → Written
    names : String → List String → Written
    pointer : Written → Written
    sized : String → Written → Written
    function : Params → Written → Written

  pub data Params : Type 0 where
    empty : Params
    param : Written → Params → Params

abbrev pub tok : TokenKind → String → Tok
tok kind text = record { kind = kind; text = text }

abbrev pub space : Tok
space = tok whitespace " "

abbrev pub print_segs : List String → List Tok
print_segs [] = []
print_segs (seg ∷ segs) = tok colon ":" ∷ tok colon ":" ∷ tok ident seg ∷ print_segs segs

-- The tokens, in front of those of `rest`
unfoldable mutual
  pub print : Written → List Tok → List Tok
  print (name text) rest = tok ident text ∷ rest
  print (names first segs) rest = tok ident first ∷ (print_segs segs ++ rest)
  print (pointer ty) rest = tok star "*" ∷ print ty rest
  print (sized size ty) rest =
      tok open_bracket "["
      ∷ tok (literal (LiteralKind.int decimal false) 0) size
      ∷ tok semi ";"
      ∷ space
      ∷ print ty (tok close_bracket "]" ∷ rest)
  print (function params ret) rest =
      tok ident "fn"
      ∷ tok open_paren "("
      ∷ print_params params (tok colon ":" ∷ space ∷ print ret rest)

  pub print_params : Params → List Tok → List Tok
  print_params empty rest = tok close_paren ")" ∷ rest
  print_params (param ty params) rest = print ty (tok comma "," ∷ space ∷ print_params params rest)

abbrev pub or_zero : Option ℕ → ℕ
or_zero none = 0
or_zero (some n) = n

abbrev pub or_void : Option Ty → Ty
or_void none = void
or_void (some ty) = ty

-- The type that is meant
module _ (number : String → ℕ) where
  unfoldable mutual
    pub meant : Written → Ty
    meant (name text) = or_void (builtin text)
    meant (names first segs) = path (numbers number (first ∷ segs))
    meant (pointer ty) = ptr (meant ty)
    meant (sized size ty) = array (or_zero (parse_usize size)) (meant ty)
    meant (function params ret) = func 0 (meant ret) (to_types (meant_params params))

    pub meant_params : Params → List Ty
    meant_params empty = []
    meant_params (param ty params) = meant ty ∷ meant_params params

abbrev pub is_some : {A : Type 0} → Option A → Bool
is_some none = false
is_some (some a) = true

-- A name that is no white space
abbrev pub kept : String → Bool
kept text = not (all is_whitespace (codes text))

-- The first name of a path is no keyword and no type by itself, no name is white space, and the size of an
-- array is a number of 64 bits.
unfoldable mutual
  pub is_written : Written → Bool
  is_written (name text) = is_some (builtin text) && not (is_keyword text)
  is_written (names first segs) =
      not (is_keyword first) && (not (is_some (builtin first)) && (kept first && all kept segs))
  is_written (pointer ty) = is_written ty
  is_written (sized size ty) = is_some (parse_usize size) && is_written ty
  is_written (function params ret) = are_written params && is_written ret

  pub are_written : Params → Bool
  are_written empty = true
  are_written (param ty params) = is_written ty && are_written params

-- How deep the parser goes, and how often its loops run
unfoldable mutual
  pub fuel_of : Written → ℕ
  fuel_of (name text) = 1
  fuel_of (names first segs) = 2 + length segs
  fuel_of (pointer ty) = suc (fuel_of ty)
  fuel_of (sized size ty) = suc (fuel_of ty)
  fuel_of (function params ret) = suc (fuel_of_params params + fuel_of ret)

  pub fuel_of_params : Params → ℕ
  fuel_of_params empty = 1
  fuel_of_params (param ty params) = suc (fuel_of ty + fuel_of_params params)

-- The tokens that may stand behind a type: no blank, identifier, colon or `<`
abbrev pub ends_type : TokenKind → Bool
ends_type TokenKind.ident = false
ends_type TokenKind.colon = false
ends_type TokenKind.lt = false
ends_type TokenKind.whitespace = false
ends_type (TokenKind.line_comment doc_style) = false
ends_type (TokenKind.block_comment doc_style terminated) = false
ends_type kind = true

abbrev pub ends : List Tok → Bool
ends [] = false
ends (t ∷ toks) = ends_type t.kind
