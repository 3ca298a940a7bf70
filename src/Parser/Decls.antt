-- ===== src/Parser/Decls.antt =====
-- src/ast/parse.rs: the declarations of structs and enums and the parameters of functions: `parse_struct`,
-- `parse_enum`, `make_fields`, `make_variants`, `make_generics` and `make_params`; the data they
-- make are of src/ast/types.rs, without their spans.
pub mod Print
pub mod Fields
pub mod RoundTrip
mod Tests
use Prim.Native.String.{String}
use text.Mathlib.Text.{◌==◌}
use enumc.Prelude.{ℕ, zero, suc, Bool, true, false, List, [], ◌∷◌, ◌++◌, Option, none, some}
use enumc.Types.Ty.{Ty}
use enumc.Lexer.Match.{TokenMatch, matches}
use enumc.Parser.Stream.{
  Parse, Parsed, done, out_of_fuel, pure, then_at, ◌>>=◌, ◌>>◌, curr_kind, input_curr, eat_if,
  eat_whitespace, eat_text, make_ident,
}
use enumc.Parser.Types.{make_ty, make_types, make_path}

pub record Field : Type 0 where
  pub ident : ℕ
  pub ty : Ty

-- A parameter of a function has the same parts.
abbrev pub Param : Type 0
Param = Field

pub record Variant : Type 0 where
  pub ident : ℕ
  pub types : List Ty

pub record Generic : Type 0 where
  pub ident : ℕ
  pub bound : Option (List ℕ)

pub record Struct : Type 0 where
  pub ident : ℕ
  pub fields : List Field
  pub generics : List Generic

pub record Enum : Type 0 where
  pub ident : ℕ
  pub variants : List Variant
  pub generics : List Generic

-- The end of a round of a loop over a list with commas, where `again` is the rest of the loop
abbrev pub comma_or_end : {A : Type 0} → Parse A → A → Parse A
comma_or_end again end =
    eat_whitespace
    >> (eat_if TokenMatch.comma
        >>= (λ more. elim more [ true ↦ eat_whitespace >> again | false ↦ pure end ]))

module _ (number : String → ℕ) where
  -- `name: type`, where `rec` is `make_ty`
  unfoldable pub make_field : Parse Ty → Parse Field
  make_field rec = make_ident >>= (λ text.
      eat_if TokenMatch.colon
      >> (eat_whitespace >> (rec >>= (λ ty. pure (record { ident = number text; ty = ty })))))

  unfoldable pub fields_loop : ℕ → Parse Ty → List Field → Parse (List Field)
  fields_loop zero rec fields toks = out_of_fuel
  fields_loop (suc fuel) rec fields toks = elim (matches TokenMatch.close_brace (curr_kind toks)) [
    | true ↦ done fields toks
    | false ↦
        then_at (make_field rec toks) (λ field.
          comma_or_end (fields_loop fuel rec (fields ++ field ∷ [])) (fields ++ field ∷ []))
  ]

  unfoldable pub make_fields : ℕ → Parse (List Field)
  make_fields fuel =
      fields_loop fuel (make_ty number fuel) [] >>= (λ fields. eat_whitespace >> pure fields)

  unfoldable pub params_loop : ℕ → Parse Ty → List Param → Parse (List Param)
  params_loop zero rec params toks = out_of_fuel
  params_loop (suc fuel) rec params toks = then_at (eat_if TokenMatch.close_paren toks) (λ closed.
      elim closed [
        | true ↦ pure params
        | false ↦ make_field rec >>= (λ param.
            comma_or_end (params_loop fuel rec (params ++ param ∷ [])) (params ++ param ∷ []))
      ])

  unfoldable pub make_params : ℕ → Parse (List Param)
  make_params fuel =
      params_loop fuel (make_ty number fuel) [] >>= (λ params. eat_whitespace >> pure params)

  unfoldable pub variants_loop : ℕ → ℕ → List Variant → Parse (List Variant)
  variants_loop zero depth variants toks = out_of_fuel
  variants_loop (suc fuel) depth variants toks =
      elim (matches TokenMatch.close_brace (curr_kind toks)) [
        | true ↦ done variants toks
        | false ↦ then_at (make_ident toks) (λ text.
            make_types depth (make_ty number depth) TokenMatch.open_paren TokenMatch.close_paren
            >>= (λ types.
                let longer = variants ++ record { ident = number text; types = types } ∷ [] in
                comma_or_end (variants_loop fuel depth longer) longer))
      ]

  unfoldable pub make_variants : ℕ → Parse (List Variant)
  make_variants fuel = variants_loop fuel fuel [] >>= (λ variants. eat_whitespace >> pure variants)

  -- `: path`, or nothing
  unfoldable pub make_bound : ℕ → Parse (Option (List ℕ))
  make_bound fuel = eat_if TokenMatch.colon >>= (λ bounded. elim bounded [
    | true ↦ eat_whitespace >> (make_path number fuel >>= (λ path. pure (some path)))
    | false ↦ pure none
  ])

  unfoldable pub generics_loop : ℕ → ℕ → List Generic → Parse (List Generic)
  generics_loop zero depth gens toks = out_of_fuel
  generics_loop (suc fuel) depth gens toks = then_at (make_ident toks) (λ text.
      make_bound depth >>= (λ bound.
        let longer = gens ++ record { ident = number text; bound = bound } ∷ [] in
        comma_or_end (generics_loop fuel depth longer) longer))

  unfoldable pub make_generics : ℕ → Parse (List Generic)
  make_generics fuel = eat_if TokenMatch.lt >>= (λ opened. elim opened [
    | true ↦
        generics_loop fuel fuel []
        >>= (λ gens. eat_if TokenMatch.gt >> (eat_whitespace >> (eat_whitespace >> pure gens)))
    | false ↦ eat_whitespace >> pure []
  ])

  -- The head of a struct or an enum: its keyword, its name, its generics and `{`
  unfoldable pub make_head : String → ℕ → Parse (ℕ × List Generic)
  make_head keyword fuel toks = then_at (eat_text (input_curr toks == keyword) toks) (λ u.
      eat_whitespace
      >> (make_ident >>= (λ text. make_generics fuel >>= (λ generics.
          eat_if TokenMatch.open_brace >> (eat_whitespace >> pure (number text, generics))))))

  unfoldable pub parse_struct : ℕ → Parse Struct
  parse_struct fuel = make_head "struct" fuel >>= (λ head. make_fields fuel >>= (λ fields.
      eat_if TokenMatch.close_brace
      >> pure (record { ident = head.0; fields = fields; generics = head.1 })))

  unfoldable pub parse_enum : ℕ → Parse Enum
  parse_enum fuel = make_head "enum" fuel >>= (λ head. make_variants fuel >>= (λ variants.
      eat_if TokenMatch.close_brace
      >> pure (record { ident = head.0; variants = variants; generics = head.1 })))
