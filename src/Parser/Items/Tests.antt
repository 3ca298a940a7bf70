-- ===== src/Parser/Items/Tests.antt =====
-- src/ast/parse.rs: items of concrete tokens.
use Prim.Native.String.{String}
use enumc.Prelude.{ℕ, ◌≡◌, refl, Bool, true, false, [], ◌∷◌, Option, none, arith}
use enumc.Lexer.Match.{matches}
use enumc.Lexer.Token.{ident, semi, pound, open_brace, close_brace}
use enumc.Parser.Stream.{done, out_of_fuel}
use enumc.Parser.Types.{is_keyword, builtin}
use enumc.Parser.Types.Print.{name, pointer, tok, space, is_written, fuel_of}
use enumc.Parser.Stmt.{no_stmts}
use enumc.Parser.Items.{FuncKind, default, no_body, func_of, make_trait_fn, parse}
use enumc.Parser.Items.Loop.{parse-pound}
use enumc.Parser.Items.Methods.{WrittenMethod, print_method, meant_signature, make_trait_fn-print}

abbrev number_of : String → ℕ
number_of text = 7

abbrev no_f64 : Bool → String → Option ℕ
no_f64 neg text = none

-- # fn
parse-pound_example :
    parse number_of no_f64 1000 (tok pound "#" ∷ space ∷ tok ident "fn" ∷ []) ≡ out_of_fuel
unfolding matches
parse-pound_example = parse-pound number_of no_f64 1000 "#" space (tok ident "fn" ∷ []) refl

-- fn f(x: int, y: *int): int
abbrev method : WrittenMethod
method = record {
  name = "f";
  params =
      record { name = "x"; ty = name "int" }
      ∷ record { name = "y"; ty = pointer (name "int") }
      ∷ [];
  ret = name "int";
}

make_trait_fn-print_example :
    (make_trait_fn number_of no_f64 20 [] false
        (print_method method (tok semi ";" ∷ space ∷ tok close_brace "}" ∷ space ∷ []))
      ≡ done
          (default (func_of (meant_signature number_of [] method) FuncKind.normal no_stmts), false)
          (tok close_brace "}" ∷ space ∷ []))
    × (make_trait_fn number_of no_f64 20 [] false
          (print_method method (tok open_brace "{" ∷ tok close_brace "}" ∷ []))
        ≡ done
            (
              no_body (func_of (meant_signature number_of [] method) FuncKind.empty_trait no_stmts),
              false,
            )
            (tok open_brace "{" ∷ tok close_brace "}" ∷ []))
unfolding matches fuel_of is_written builtin is_keyword
make_trait_fn-print_example =
    make_trait_fn-print number_of no_f64 20 [] false method true space (tok open_brace "{") []
      (tok close_brace "}" ∷ []) (omega arith) refl refl refl
