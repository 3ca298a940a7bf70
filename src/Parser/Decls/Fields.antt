-- ===== src/Parser/Decls/Fields.antt =====
-- src/ast/parse.rs: `make_fields` reads the fields that are written.
use Prim.Native.String.{String}
use mathlib.Core.List.{append-nil, append_assoc}
use enumc.Prelude.{ℕ, zero, suc, ◌≤◌, ◌≡◌, refl, sym, ap, ◌∙◌, true, List, [], ◌∷◌, ◌++◌, arith}
use enumc.Lexer.Token.{ident, comma, colon, close_brace}
use enumc.Lexer.Match.{matches}
use enumc.Parser.Stream.{Tok, Parse, done, then_at, eat_if, eat_whitespace}
use enumc.Parser.Types.{make_ty}
use enumc.Parser.Types.Print.{tok, space, print, is_written, fuel_of, ends}
use enumc.Parser.Types.Segs.{and-left, and-right, make_ident-ident, eat_whitespace-print}
use enumc.Parser.Types.RoundTrip.{make_ty-print}
use enumc.Parser.Decls.{Field, comma_or_end, make_field, fields_loop}
use enumc.Parser.Decls.Print.{
  WrittenField, print_fields, meant_field, meant_fields, written_fields, fuel_of_fields,
}

-- At a comma and a space, the loop goes on.
pub comma_or_end-more :
    {A : Type 0} (again : Parse A) (end : A) (toks : List Tok)
    → eat_whitespace toks ≡ done tt toks
    → comma_or_end again end (tok comma "," ∷ space ∷ toks) ≡ again toks
unfolding eat_whitespace eat_if matches
comma_or_end-more again end toks h = ap (λ p. then_at p (λ u. again)) h

-- The closing brace and what is behind it
abbrev pub closing : Tok → List Tok → List Tok
closing t rest = tok close_brace "}" ∷ t ∷ rest

pub eat_whitespace-fields :
    (fields : List WrittenField) (t : Tok) (rest : List Tok)
    → eat_whitespace (print_fields fields (closing t rest))
      ≡ done tt (print_fields fields (closing t rest))
unfolding eat_whitespace print_fields
eat_whitespace-fields [] t rest = refl
eat_whitespace-fields (f ∷ fields) t rest = refl

module _ (number : String → ℕ) where
  pub make_field-print :
      (fuel : ℕ) (f : WrittenField) (rest : List Tok)
      → fuel_of f.ty ≤ fuel
      → is_written f.ty ≡ true
      → ends rest ≡ true
      → make_field number
          (make_ty number fuel)
          (tok ident f.name ∷ tok colon ":" ∷ space ∷ print f.ty rest)
        ≡ done (meant_field number f) rest
  unfolding make_field eat_if matches eat_whitespace
  make_field-print fuel f rest le w h =
      rw (make_field, make_ident-ident f.name (tok colon ":" ∷ space ∷ print f.ty rest) refl)
        (rw (eat_whitespace-print f.ty rest) (rw (make_ty-print number f.ty fuel rest le w h) refl))

  pub fields_loop-print :
      (fields : List WrittenField) (n fuel : ℕ) (acc : List Field) (t : Tok) (rest : List Tok)
      → fuel_of_fields fields ≤ n
      → fuel_of_fields fields ≤ fuel
      → written_fields fields ≡ true
      → fields_loop number n (make_ty number fuel) acc (print_fields fields (closing t rest))
        ≡ done (acc ++ meant_fields number fields) (closing t rest)
  unfolding fields_loop print_fields matches
  fields_loop-print [] zero fuel acc t rest le le' w = absurd (omega arith)
  fields_loop-print (f ∷ fields) zero fuel acc t rest le le' w = absurd (omega arith)
  fields_loop-print [] (suc n) fuel acc t rest le le' w =
      ap (λ l. done l (closing t rest)) (sym (append-nil acc))
  fields_loop-print (f ∷ fields) (suc n) fuel acc t rest le le' w =
      let next = tok comma "," ∷ space ∷ print_fields fields (closing t rest) in
      let more = acc ++ meant_field number f ∷ [] in
      ap
        (λ p. then_at p (λ field.
          comma_or_end (fields_loop number n (make_ty number fuel) (acc ++ field ∷ []))
            (acc ++ field ∷ [])))
        (make_field-print fuel f next (omega arith)
          (and-left (is_written f.ty) (written_fields fields) w) refl)
      ∙ comma_or_end-more (fields_loop number n (make_ty number fuel) more) more
          (print_fields fields (closing t rest)) (eat_whitespace-fields fields t rest)
      ∙ fields_loop-print fields n fuel more t rest (omega arith) (omega arith)
          (and-right (is_written f.ty) (written_fields fields) w)
      ∙ ap (λ l. done l (closing t rest))
          (append_assoc acc (meant_field number f ∷ []) (meant_fields number fields))
