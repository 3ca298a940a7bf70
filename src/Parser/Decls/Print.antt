-- ===== src/Parser/Decls/Print.antt =====
-- src/ast/parse.rs: the tokens of a written struct.
use Prim.Native.String.{String}
use enumc.Prelude.{
  ℕ, Bool, true, ◌&&◌, List, [], ◌∷◌, ◌++◌, Option, none, some, all, suc, ◌+◌, length,
}
use enumc.Lexer.Token.{ident, comma, colon, lt, gt, open_brace, close_brace}
use enumc.Parser.Stream.{Tok}
use enumc.Parser.Types.{numbers}
use enumc.Parser.Types.Print.{
  Written, tok, space, print_segs, print, meant, is_written, fuel_of, kept,
}
use enumc.Parser.Decls.{Field, Generic, Struct}

-- A path is a name and the names behind `::`.
pub record WrittenGeneric : Type 0 where
  pub name : String
  pub bound : Option (String × List String)

pub record WrittenField : Type 0 where
  pub name : String
  pub ty : Written

pub record WrittenStruct : Type 0 where
  pub name : String
  pub generics : List WrittenGeneric
  pub fields : List WrittenField

abbrev pub print_bound : Option (String × List String) → List Tok → List Tok
print_bound none rest = rest
print_bound (some (first, segs)) rest =
    tok colon ":" ∷ space ∷ tok ident first ∷ (print_segs segs ++ rest)

-- The generics behind the first
unfoldable pub print_more : List WrittenGeneric → List Tok → List Tok
print_more [] rest = rest
print_more (g ∷ gens) rest =
    tok comma "," ∷ space ∷ tok ident g.name ∷ print_bound g.bound (print_more gens rest)

abbrev pub print_generics : List WrittenGeneric → List Tok → List Tok
print_generics [] rest = space ∷ rest
print_generics (g ∷ gens) rest =
    tok lt "<"
    ∷ tok ident g.name
    ∷ print_bound g.bound (print_more gens (tok gt ">" ∷ space ∷ rest))

-- A comma stands behind each field.
unfoldable pub print_fields : List WrittenField → List Tok → List Tok
print_fields [] rest = rest
print_fields (f ∷ fields) rest =
    tok ident f.name
    ∷ tok colon ":"
    ∷ space
    ∷ print f.ty (tok comma "," ∷ space ∷ print_fields fields rest)

unfoldable pub print_struct : WrittenStruct → List Tok → List Tok
print_struct s rest =
    tok ident "struct"
    ∷ space
    ∷ tok ident s.name
    ∷ print_generics s.generics
        (tok open_brace "{" ∷ space ∷ print_fields s.fields (tok close_brace "}" ∷ rest))

module _ (number : String → ℕ) where
  abbrev pub meant_bound : Option (String × List String) → Option (List ℕ)
  meant_bound none = none
  meant_bound (some (first, segs)) = some (numbers number (first ∷ segs))

  abbrev pub meant_generic : WrittenGeneric → Generic
  meant_generic g = record { ident = number g.name; bound = meant_bound g.bound }

  abbrev pub meant_generics : List WrittenGeneric → List Generic
  meant_generics [] = []
  meant_generics (g ∷ gens) = meant_generic g ∷ meant_generics gens

  abbrev pub meant_field : WrittenField → Field
  meant_field f = record { ident = number f.name; ty = meant number f.ty }

  abbrev pub meant_fields : List WrittenField → List Field
  meant_fields [] = []
  meant_fields (f ∷ fields) = meant_field f ∷ meant_fields fields

  unfoldable pub meant_struct : WrittenStruct → Struct
  meant_struct s = record {
    ident = number s.name;
    fields = meant_fields s.fields;
    generics = meant_generics s.generics;
  }

abbrev pub kept_bound : Option (String × List String) → Bool
kept_bound none = true
kept_bound (some (first, segs)) = kept first && all kept segs

abbrev pub kept_generics : List WrittenGeneric → Bool
kept_generics [] = true
kept_generics (g ∷ gens) = kept_bound g.bound && kept_generics gens

abbrev pub written_fields : List WrittenField → Bool
written_fields [] = true
written_fields (f ∷ fields) = is_written f.ty && written_fields fields

-- The types of the fields are written as `make_ty` reads them, and no name of a bound is white space.
unfoldable pub is_struct : WrittenStruct → Bool
is_struct s = kept_generics s.generics && written_fields s.fields

abbrev pub fuel_of_bound : Option (String × List String) → ℕ
fuel_of_bound none = 0
fuel_of_bound (some (first, segs)) = suc (length segs)

abbrev pub fuel_of_generics : List WrittenGeneric → ℕ
fuel_of_generics [] = 0
fuel_of_generics (g ∷ gens) = suc (fuel_of_bound g.bound + fuel_of_generics gens)

abbrev pub fuel_of_fields : List WrittenField → ℕ
fuel_of_fields [] = 1
fuel_of_fields (f ∷ fields) = suc (fuel_of f.ty + fuel_of_fields fields)

unfoldable pub fuel_of_struct : WrittenStruct → ℕ
fuel_of_struct s = fuel_of_generics s.generics + fuel_of_fields s.fields
