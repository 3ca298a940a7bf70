-- ===== src/Parser/Stream.antt =====
-- src/ast/parse.rs: the tokens in front of the parser, and the methods of `AstBuilder` that look at them
-- and eat them. A token carries its text, the piece of the input it covers; the index into the input, which
-- finds that piece and makes the spans, is not kept. The first token is `curr`, the rest are `tokens`.
use Prim.Native.Char.{code}
use Prim.Native.String.{String}
use enumc.Prelude.{
  ℕ, zero, suc, Bool, true, false, not, ◌||◌, List, [], ◌∷◌, ◌++◌, if◌then◌else◌, all,
}
use enumc.Lexer.Chars.{is_whitespace}
use enumc.Lexer.Token.{TokenKind, eof}
use enumc.Lexer.Match.{TokenMatch, matches}

pub record Tok : Type 0 where
  pub kind : TokenKind
  pub text : String

pub data ParseError : Type 0 where
  expected invalid_int_literal invalid_float_literal : ParseError

-- A result with the tokens that are left, an error, or a panic
pub data Parsed (A : Type 0) : Type 0 where
  done : A → List Tok → Parsed A
  failed : ParseError → Parsed A
  panic out_of_fuel : Parsed A

abbrev pub Parse : Type 0 → Type 0
Parse A = List Tok → Parsed A

module _ {A : Type 0} where
  abbrev pub pure : A → Parse A
  pure a toks = done a toks

  abbrev pub fail : ParseError → Parse A
  fail error toks = failed error

module _ {A B : Type 0} where
  abbrev pub then_at : Parsed A → (A → Parse B) → Parsed B
  then_at (done a toks) f = f a toks
  then_at (failed error) f = failed error
  then_at panic f = panic
  then_at out_of_fuel f = out_of_fuel

  infixl 5 ◌>>=◌
  abbrev pub ◌>>=◌ : Parse A → (A → Parse B) → Parse B
  ◌>>=◌ m f toks = then_at (m toks) f

  infixl 5 ◌>>◌
  abbrev pub ◌>>◌ : Parse A → Parse B → Parse B
  ◌>>◌ m k toks = then_at (m toks) (λ a. k)

abbrev pub curr_kind : List Tok → TokenKind
curr_kind [] = eof
curr_kind (t ∷ tokens) = t.kind

-- `input_curr`
abbrev pub input_curr : List Tok → String
input_curr [] = ""
input_curr (t ∷ tokens) = t.text

abbrev pub is_blank : TokenKind → Bool
is_blank (TokenKind.line_comment doc_style) = true
is_blank (TokenKind.block_comment doc_style terminated) = true
is_blank TokenKind.whitespace = true
is_blank kind = false

-- `eat_tkn`: `remove(0)` of no tokens is a panic.
abbrev pub eat_tkn : Parse (Unit {0})
eat_tkn [] = panic
eat_tkn (t ∷ []) = panic
eat_tkn (t ∷ next ∷ tokens) = done tt (next ∷ tokens)

-- `eat_if`, by whether the current token matches
abbrev pub eat_when : Bool → Parse Bool
eat_when false toks = done false toks
eat_when true [] = panic
eat_when true (t ∷ []) = panic
eat_when true (t ∷ next ∷ tokens) = done true (next ∷ tokens)

unfoldable pub eat_if : TokenMatch → Parse Bool
eat_if pat toks = eat_when (matches pat (curr_kind toks)) toks

unfoldable pub eat_whitespace : Parse (Unit {0})
eat_whitespace [] = panic
eat_whitespace (t ∷ tokens) =
    if is_blank t.kind then eat_whitespace tokens else done tt (t ∷ tokens)

-- `eat_keyword`
unfoldable pub eat_text : Bool → Parse (Unit {0})
eat_text true toks = eat_tkn toks
eat_text false toks = done tt toks

-- `zip(..).all(..)`: the shorter list ends it.
unfoldable pub zip_all : List TokenMatch → List Tok → Bool
zip_all [] toks = true
zip_all (cmp ∷ iter) [] = true
zip_all (cmp ∷ iter) (t ∷ toks) = if matches cmp t.kind then zip_all iter toks else false

unfoldable pub cmp_seq : List TokenMatch → List Tok → Bool
cmp_seq iter [] = false
cmp_seq [] (t ∷ tokens) = matches TokenMatch.unknown t.kind
cmp_seq (first ∷ iter) (t ∷ tokens) = if matches first t.kind then zip_all iter tokens else false

unfoldable pub without_blanks : List Tok → List Tok
without_blanks [] = []
without_blanks (t ∷ toks) =
    let rest = without_blanks toks in if is_blank t.kind then rest else t ∷ rest

unfoldable pub cmp_seq_ignore_ws : List TokenMatch → List Tok → Bool
cmp_seq_ignore_ws iter [] = false
cmp_seq_ignore_ws [] (t ∷ tokens) = is_blank t.kind || matches TokenMatch.unknown t.kind
cmp_seq_ignore_ws (first ∷ iter) (t ∷ tokens) =
    if is_blank t.kind
    then zip_all (first ∷ iter) (without_blanks tokens)
    else if matches first t.kind
    then zip_all iter (without_blanks tokens)
    else false

unfoldable pub eat_seq : List TokenMatch → Parse Bool
eat_seq [] toks = done true toks
eat_seq (kind ∷ iter) toks =
    then_at (eat_if kind toks) (λ eaten. if eaten then eat_seq iter else pure false)

-- `curr_span` is empty at a blank, so its name is the empty text.
abbrev pub ident_text : List Tok → String
ident_text toks = if is_blank (curr_kind toks) then "" else input_curr toks

unfoldable pub make_ident : Parse String
make_ident toks =
    then_at (eat_if TokenMatch.ident toks) (λ eaten. eat_whitespace >> pure (ident_text toks))

-- The code points of a text
abbrev pub codes : String → List ℕ
codes String.[] = []
codes (String.◌∷◌ c s) = code c ∷ codes s

-- `retain`: the empty names and those of white space are dropped.
unfoldable pub retain : List String → List String
retain [] = []
retain (id ∷ ids) =
    let rest = retain ids in if all is_whitespace (codes id) then rest else id ∷ rest

abbrev pub colons : List TokenMatch
colons = TokenMatch.colon ∷ TokenMatch.colon ∷ []

-- How a round of `make_seg` begins: it ends the loop, eats `::`, or goes on.
pub data SegStart : Type 0 where
  stop eat_colons go_on : SegStart

unfoldable pub seg_start : List Tok → SegStart
seg_start toks =
    let full_type_args =
      cmp_seq_ignore_ws
        (TokenMatch.ident ∷ TokenMatch.colon ∷ TokenMatch.colon ∷ TokenMatch.lt ∷ []) toks in
    let just_type_args =
      cmp_seq_ignore_ws (TokenMatch.colon ∷ TokenMatch.colon ∷ TokenMatch.lt ∷ []) toks in
    let is_explicit_type =
      cmp_seq_ignore_ws (TokenMatch.ident ∷ TokenMatch.colon ∷ TokenMatch.ident ∷ []) toks in
    if not (full_type_args || just_type_args || is_explicit_type)
    then eat_colons
    else if just_type_args
    then stop
    else go_on

-- The end of a round, where `again` is the rest of the loop
abbrev pub seg_next : (List String → Parse (List String)) → List String → Parse (List String)
seg_next again ids toks = elim (cmp_seq colons toks || cmp_seq (TokenMatch.ident ∷ []) toks) [
  | true ↦ (eat_whitespace >> again ids) toks
  | false ↦ done ids toks
]

abbrev pub seg_step : (List String → Parse (List String)) → List String → Parse (List String)
seg_step again ids = make_ident >>= (λ id. seg_next again (ids ++ id ∷ []))

unfoldable pub seg_loop : ℕ → List String → Parse (List String)
seg_loop zero ids toks = out_of_fuel
seg_loop (suc fuel) ids toks = elim (seg_start toks) [
  | stop ↦ done ids toks
  | eat_colons ↦ (eat_seq colons >> seg_step (seg_loop fuel) ids) toks
  | go_on ↦ seg_step (seg_loop fuel) ids toks
]

unfoldable pub make_seg : ℕ → Parse (List String)
make_seg fuel = seg_loop fuel [] >>= (λ ids. eat_whitespace >> pure (retain ids))
