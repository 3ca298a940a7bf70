-- ===== src/Parser/Decls/RoundTrip.antt =====
-- src/ast/parse.rs: `parse_struct` reads the struct that is written.
use Prim.Native.String.{String}
use mathlib.Core.List.{append_assoc}
use enumc.Prelude.{
  ℕ, zero, suc, ◌≤◌, ◌≡◌, refl, ap, ◌∙◌, true, false, List, [], ◌∷◌, ◌++◌, Option, none, some,
  arith,
}
use enumc.Lexer.Token.{ident, gt, open_brace}
use enumc.Lexer.Match.{TokenMatch, matches}
use enumc.Parser.Stream.{Tok, done, eat_if, eat_whitespace, eat_text, make_ident}
use enumc.Parser.Types.{make_path}
use enumc.Parser.Types.Print.{tok, space, ends}
use enumc.Parser.Types.Segs.{
  and-left, and-right, make_ident-ident, eat_whitespace-ends, ends_type-colon, make_seg-segs,
}
use enumc.Parser.Decls.{
  Generic, comma_or_end, make_fields, make_bound, generics_loop, make_generics, make_head,
  parse_struct,
}
use enumc.Parser.Decls.Print.{
  WrittenGeneric, WrittenStruct, print_bound, print_more, print_generics, print_fields,
  print_struct, meant_bound, meant_generic, meant_generics, meant_struct, kept_bound, kept_generics,
  written_fields, is_struct, fuel_of_bound, fuel_of_generics, fuel_of_struct,
}
use enumc.Parser.Decls.Fields.{comma_or_end-more, closing, eat_whitespace-fields, fields_loop-print}

eat_if-colon : (rest : List Tok) → ends rest ≡ true → eat_if TokenMatch.colon rest ≡ done false rest
unfolding eat_if
eat_if-colon [] h = absurd (ground arith)
eat_if-colon (t ∷ rest) h = rw (ends_type-colon t.kind h) refl

eat_whitespace-bound :
    (bound : Option (String × List String)) (rest : List Tok)
    → ends rest ≡ true
    → eat_whitespace (print_bound bound rest) ≡ done tt (print_bound bound rest)
unfolding eat_whitespace
eat_whitespace-bound none rest h = eat_whitespace-ends rest h
eat_whitespace-bound (some (first, segs)) rest h = refl

-- The end of the generics
abbrev at_gt : List Tok → List Tok
at_gt rest = tok gt ">" ∷ space ∷ rest

ends-print_more :
    (gens : List WrittenGeneric) (rest : List Tok) → ends (print_more gens (at_gt rest)) ≡ true
unfolding print_more
ends-print_more [] rest = refl
ends-print_more (g ∷ gens) rest = refl

module _ (number : String → ℕ) where
  make_bound-print :
      (fuel : ℕ) (bound : Option (String × List String)) (rest : List Tok)
      → fuel_of_bound bound ≤ fuel
      → kept_bound bound ≡ true
      → ends rest ≡ true
      → make_bound number fuel (print_bound bound rest) ≡ done (meant_bound number bound) rest
  unfolding make_bound eat_if matches eat_whitespace make_path
  make_bound-print fuel none rest le k h = rw (make_bound, eat_if-colon rest h) refl
  make_bound-print fuel (some (first, segs)) rest le k h =
      rw (make_path, make_seg-segs fuel first segs rest le k h) refl

  -- A round of the loop reads one of the generics.
  generics_loop_round :
      (g : WrittenGeneric) (gens : List WrittenGeneric) (n depth : ℕ) (acc : List Generic)
      (rest : List Tok)
      → fuel_of_bound g.bound ≤ depth
      → kept_bound g.bound ≡ true
      → generics_loop number
          (suc n)
          depth
          acc
          (tok ident g.name ∷ print_bound g.bound (print_more gens (at_gt rest)))
        ≡ comma_or_end
            (generics_loop number n depth (acc ++ meant_generic number g ∷ []))
            (acc ++ meant_generic number g ∷ [])
            (print_more gens (at_gt rest))
  unfolding generics_loop
  generics_loop_round g gens n depth acc rest le k =
      let more = print_more gens (at_gt rest) in
      rw
        (
          generics_loop,
          make_ident-ident g.name (print_bound g.bound more)
              (eat_whitespace-bound g.bound more (ends-print_more gens rest)),
        )
        (rw (make_bound-print depth g.bound more le k (ends-print_more gens rest)) refl)

  generics_loop-print :
      (g : WrittenGeneric) (gens : List WrittenGeneric) (n depth : ℕ) (acc : List Generic)
      (rest : List Tok)
      → fuel_of_generics (g ∷ gens) ≤ n
      → fuel_of_generics (g ∷ gens) ≤ depth
      → kept_generics (g ∷ gens) ≡ true
      → generics_loop number n depth acc
          (tok ident g.name ∷ print_bound g.bound (print_more gens (at_gt rest)))
        ≡ done (acc ++ meant_generics number (g ∷ gens)) (at_gt rest)
  unfolding print_more eat_if matches eat_whitespace
  generics_loop-print g gens zero depth acc rest le le' k = absurd (omega arith)
  generics_loop-print g [] (suc n) depth acc rest le le' k =
      generics_loop_round g [] n depth acc rest (omega arith) (and-left (kept_bound g.bound) true k)
  generics_loop-print g (next ∷ gens) (suc n) depth acc rest le le' k =
      let more = acc ++ meant_generic number g ∷ [] in
      let others = and-right (kept_bound g.bound) (kept_generics (next ∷ gens)) k in
      generics_loop_round g (next ∷ gens) n depth acc rest (omega arith)
        (and-left (kept_bound g.bound) (kept_generics (next ∷ gens)) k)
      ∙ comma_or_end-more (generics_loop number n depth more) more
          (tok ident next.name ∷ print_bound next.bound (print_more gens (at_gt rest))) refl
      ∙ generics_loop-print next gens n depth more rest (omega arith) (omega arith) others
      ∙ ap (λ l. done l (at_gt rest))
          (append_assoc acc (meant_generic number g ∷ []) (meant_generics number (next ∷ gens)))

  make_head-print :
      (name : String) (gens : List WrittenGeneric) (fuel : ℕ) (toks : List Tok)
      → fuel_of_generics gens ≤ fuel
      → kept_generics gens ≡ true
      → eat_whitespace toks ≡ done tt toks
      → make_head number "struct" fuel (
          tok ident "struct"
          ∷ space
          ∷ tok ident name
          ∷ print_generics gens (tok open_brace "{" ∷ space ∷ toks))
        ≡ done (number name, meant_generics number gens) toks
  unfolding make_head eat_text eat_whitespace make_ident make_generics eat_if matches
  make_head-print name [] fuel toks le k h = rw h refl
  make_head-print name (g ∷ gens) fuel toks le k h =
      rw (generics_loop-print g gens fuel fuel [] (tok open_brace "{" ∷ space ∷ toks) le le k)
        (rw h refl)

  -- `parse_struct` reads back what is written: the tokens of a struct give its name, its generics with
  -- their bounds and its fields with their types, in order, and the tokens behind it are left. The types
  -- and bounds are to be such as `make_ty` reads back, and the fuel `fuel_of_struct` or more.
  pub parse_struct-print :
      (s : WrittenStruct) (fuel : ℕ) (t : Tok) (rest : List Tok)
      → fuel_of_struct s ≤ fuel
      → is_struct s ≡ true
      → parse_struct number fuel (print_struct s (t ∷ rest))
        ≡ done (meant_struct number s) (t ∷ rest)
  unfolding parse_struct make_fields print_struct meant_struct is_struct fuel_of_struct
      eat_whitespace eat_if matches
  parse_struct-print s fuel t rest le w =
      rw
        (
          parse_struct,
          make_head-print s.name s.generics fuel (print_fields s.fields (closing t rest))
              (omega arith) (and-left (kept_generics s.generics) (written_fields s.fields) w)
              (eat_whitespace-fields s.fields t rest),
        )
        (rw
          (
            make_fields,
            fields_loop-print number s.fields fuel fuel [] t rest (omega arith) (omega arith)
                (and-right (kept_generics s.generics) (written_fields s.fields) w),
          )
          refl)
