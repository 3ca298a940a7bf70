-- ===== src/Parser/Types/Steps.antt =====
-- src/ast/parse.rs: the steps of `make_ty` on written tokens.
use Prim.Native.String.{String}
use enumc.Prelude.{ℕ, ◌≤◌, ◌≡◌, refl, true, false, not, List, [], ◌∷◌, Option, none, some, arith}
use enumc.Lexer.Token.{LiteralKind, decimal, literal, semi, comma, colon, close_bracket, open_paren}
use enumc.Lexer.Match.{TokenMatch, matches}
use enumc.Types.Ty.{Ty, array}
use enumc.Parser.Stream.{Tok, Parse, done, curr_kind, eat_if, eat_tkn, eat_whitespace}
use enumc.Parser.Types.{parse_usize, make_array_type, array_size, make_ret}
use enumc.Parser.Types.Print.{
  Written, name, names, pointer, sized, function, Params, empty, param, tok, space, print,
  print_params, fuel_of, ends, is_some,
}
use enumc.Parser.Types.Segs.{ends_type-lt, ends_type-ident, eat_whitespace-print}

pub is_some-eq : {A : Type 0} (o : Option A) → is_some o ≡ true → (a : A) × (o ≡ some a)
is_some-eq none h = absurd (ground arith)
is_some-eq (some a) h = (a, refl)

pub is_some-none : {A : Type 0} (o : Option A) → not (is_some o) ≡ true → o ≡ none
is_some-none none h = refl
is_some-none (some a) h = absurd (ground arith)

pub eat_if-ends :
    (rest : List Tok) → ends rest ≡ true → eat_if TokenMatch.ident rest ≡ done false rest
unfolding eat_if
eat_if-ends [] h = absurd (ground arith)
eat_if-ends (t ∷ rest) h = rw (ends_type-ident t.kind h) refl

pub lt-ends : (rest : List Tok) → ends rest ≡ true → matches TokenMatch.lt (curr_kind rest) ≡ false
lt-ends [] h = absurd (ground arith)
lt-ends (t ∷ rest) h = ends_type-lt t.kind h

pub eat_if-print :
    (ty : Written) (rest : List Tok)
    → eat_if TokenMatch.close_paren (print ty rest) ≡ done false (print ty rest)
unfolding eat_if matches print
eat_if-print (name text) rest = refl
eat_if-print (names first segs) rest = refl
eat_if-print (pointer ty) rest = refl
eat_if-print (sized size ty) rest = refl
eat_if-print (function args ret) rest = refl

pub eat_tkn-print :
    (t : Tok) (ty : Written) (rest : List Tok)
    → eat_tkn (t ∷ print ty rest) ≡ done tt (print ty rest)
unfolding print
eat_tkn-print t (name text) rest = refl
eat_tkn-print t (names first segs) rest = refl
eat_tkn-print t (pointer ty) rest = refl
eat_tkn-print t (sized size ty) rest = refl
eat_tkn-print t (function args ret) rest = refl

pub eat_if-open :
    (ty : Written) (rest : List Tok)
    → eat_if TokenMatch.open_paren (tok open_paren "(" ∷ print ty rest) ≡ done true (print ty rest)
unfolding eat_if matches print
eat_if-open (name text) rest = refl
eat_if-open (names first segs) rest = refl
eat_if-open (pointer ty) rest = refl
eat_if-open (sized size ty) rest = refl
eat_if-open (function args ret) rest = refl

pub eat_if-paren :
    (args : Params) (t : Tok) (rest : List Tok)
    → eat_if TokenMatch.open_paren (tok open_paren "(" ∷ print_params args (t ∷ rest))
      ≡ done true (print_params args (t ∷ rest))
unfolding eat_if matches print_params
eat_if-paren empty t rest = refl
eat_if-paren (param ty args) t rest =
    eat_if-open ty (tok comma "," ∷ space ∷ print_params args (t ∷ rest))

pub no_fuel : (ty : Written) → ¬ (fuel_of ty ≤ 0)
unfolding fuel_of
no_fuel (name text) h = omega arith
no_fuel (names first segs) h = omega arith
no_fuel (pointer ty) h = omega arith
no_fuel (sized size ty) h = omega arith
no_fuel (function args ret) h = omega arith

pub eat_whitespace-print_params :
    (args : Params) (rest : List Tok)
    → eat_whitespace (print_params args rest) ≡ done tt (print_params args rest)
unfolding eat_whitespace print_params
eat_whitespace-print_params empty rest = refl
eat_whitespace-print_params (param ty args) rest =
    eat_whitespace-print ty (tok comma "," ∷ space ∷ print_params args rest)

pub make_array_type-reads :
    (rec : Parse Ty) (text : String) (size : ℕ) (toks : List Tok) (ty : Ty) (t : Tok)
    (rest : List Tok)
    → parse_usize text ≡ some size
    → eat_whitespace toks ≡ done tt toks
    → rec toks ≡ done ty (tok close_bracket "]" ∷ t ∷ rest)
    → make_array_type rec
        (tok (literal (LiteralKind.int decimal false) 0) text ∷ tok semi ";" ∷ space ∷ toks)
      ≡ done (array size ty) (t ∷ rest)
unfolding make_array_type array_size eat_if matches eat_whitespace
make_array_type-reads rec text size toks ty t rest e f g =
    rw (make_array_type, array_size, e) (rw (eat_whitespace, f) (rw g refl))

pub make_ret-reads :
    (rec : Parse Ty) (toks : List Tok) (ty : Ty) (rest : List Tok)
    → eat_whitespace toks ≡ done tt toks
    → rec toks ≡ done ty rest
    → make_ret rec (tok colon ":" ∷ space ∷ toks) ≡ done ty rest
unfolding make_ret eat_if matches eat_whitespace
make_ret-reads rec toks ty rest f g = rw f g
