-- ===== src/Parser/Types/RoundTrip.antt =====
-- src/ast/parse.rs: `make_ty` reads the type that is written.
use Prim.Native.String.{String}
use enumc.Prelude.{
  ℕ, zero, suc, ◌≤◌, ◌≡◌, refl, sym, ap, ◌∙◌, true, false, not, ◌&&◌, List, [], ◌∷◌, ◌++◌, all,
  length, arith,
}
use mathlib.Core.List.{append-nil, append_assoc}
use enumc.Lexer.Token.{ident, comma, colon, star, close_bracket}
use enumc.Lexer.Match.{TokenMatch, matches}
use enumc.Types.Ty.{Ty}
use enumc.Parser.Stream.{
  Tok, Parse, done, then_at, ◌>>=◌, ◌>>◌, pure, eat_if, eat_whitespace, eat_text,
}
use enumc.Parser.Types.{
  is_keyword, parse_usize, builtin, builtin_or_path, params_loop, make_fn_type, make_path,
  path_type, named_type, type_at, make_ty,
}
use enumc.Parser.Types.Print.{
  Written, name, names, pointer, sized, function, Params, empty, param, tok, space, print_segs,
  print, print_params, meant, meant_params, is_written, are_written, fuel_of, fuel_of_params, ends,
  kept, is_some,
}
use enumc.Parser.Types.Segs.{and-left, and-right, not-true, eat_whitespace-print, make_seg-segs}
use enumc.Parser.Types.Steps.{
  is_some-eq, is_some-none, eat_if-ends, lt-ends, eat_if-print, eat_tkn-print, eat_if-paren,
  no_fuel, eat_whitespace-print_params, make_array_type-reads, make_ret-reads,
}

module _ (number : String → ℕ) where
  named_type-other :
      (fuel : ℕ) (rec : Parse Ty) (text : String) (toks : List Tok)
      → is_keyword text ≡ false
      → named_type number fuel rec (tok ident text ∷ toks)
        ≡ (builtin_or_path number (builtin text) fuel rec
              >>= (λ ty. eat_if TokenMatch.ident >> pure ty))
            (tok ident text ∷ toks)
  unfolding named_type
  named_type-other fuel rec text toks e = rw (named_type, e) refl

  -- `make_ty` on some fuel reads what is written.
  unfoldable Reads : Parse Ty → Written → Type 0
  Reads rec ty =
      (rest : List Tok) → ends rest ≡ true → rec (print ty rest) ≡ done (meant number ty) rest

  make_ty-name :
      (fuel : ℕ) (text : String)
      → is_written (name text) ≡ true
      → Reads (make_ty number (suc fuel)) (name text)
  unfolding Reads is_written make_ty type_at print meant eat_if matches
  make_ty-name fuel text w [] h = absurd (ground arith)
  make_ty-name fuel text w (t ∷ rest) h =
      let (ty, e) =
        is_some-eq (builtin text) (and-left (is_some (builtin text)) (not (is_keyword text)) w) in
      named_type-other fuel (make_ty number fuel) text (t ∷ rest)
        (not-true (is_keyword text) (and-right (is_some (builtin text)) (not (is_keyword text)) w))
      ∙ rw e refl

  make_ty-names :
      (fuel : ℕ) (first : String) (segs : List String)
      → suc (length segs) ≤ fuel
      → is_written (names first segs) ≡ true
      → Reads (make_ty number (suc fuel)) (names first segs)
  unfolding Reads is_written make_ty type_at print meant path_type make_path
  make_ty-names fuel first segs le w rest h =
      let other =
        and-right (not (is_keyword first))
          (not (is_some (builtin first)) && (kept first && all kept segs)) w in
      let none-eq =
        is_some-none (builtin first)
          (and-left (not (is_some (builtin first))) (kept first && all kept segs) other) in
      named_type-other fuel (make_ty number fuel) first (print_segs segs ++ rest) (
        not-true (is_keyword first) (
          and-left (not (is_keyword first))
            (not (is_some (builtin first)) && (kept first && all kept segs)) w))
      ∙ rw none-eq (
          rw
            (
              path_type,
              make_path,
              make_seg-segs fuel first segs rest le
                  (and-right (not (is_some (builtin first))) (kept first && all kept segs) other) h,
            )
            (rw (then_at, lt-ends rest h) (rw (eat_if-ends rest h) refl)))

  make_ty-sized :
      (fuel : ℕ) (size : String) (ty : Written)
      → is_some (parse_usize size) ≡ true
      → Reads (make_ty number fuel) ty
      → Reads (make_ty number (suc fuel)) (sized size ty)
  unfolding Reads make_ty type_at print meant eat_if matches eat_whitespace
  make_ty-sized fuel size ty w reads [] h = absurd (ground arith)
  make_ty-sized fuel size ty w reads (t ∷ rest) h =
      let (n, e) = is_some-eq (parse_usize size) w in
      make_array_type-reads (make_ty number fuel) size n
        (print ty (tok close_bracket "]" ∷ t ∷ rest)) (meant number ty) t rest e
        (eat_whitespace-print ty (tok close_bracket "]" ∷ t ∷ rest))
        (reads (tok close_bracket "]" ∷ t ∷ rest) refl)
      ∙ rw e refl

  make_ty-pointer :
      (fuel : ℕ) (ty : Written)
      → Reads (make_ty number fuel) ty
      → Reads (make_ty number (suc fuel)) (pointer ty)
  unfolding Reads make_ty type_at print meant
  make_ty-pointer fuel ty reads rest h =
      rw (eat_tkn-print (tok star "*") ty rest) (rw (reads rest h) refl)

  -- The loop over the parameters reads those that are written.
  unfoldable ReadsAll : ℕ → Parse Ty → Params → Type 0
  ReadsAll fuel rec args =
      (tys : List Ty) (t : Tok) (rest : List Tok)
      → params_loop fuel rec tys (print_params args (t ∷ rest))
        ≡ done (tys ++ meant_params number args) (t ∷ rest)

  params_loop-empty : (fuel : ℕ) (rec : Parse Ty) → ReadsAll (suc fuel) rec empty
  unfolding ReadsAll params_loop print_params meant_params eat_whitespace eat_if matches
  params_loop-empty fuel rec tys t rest = ap (λ l. done l (t ∷ rest)) (sym (append-nil tys))

  params_loop-param :
      (fuel : ℕ) (rec : Parse Ty) (ty : Written) (args : Params)
      → Reads rec ty
      → ReadsAll fuel rec args
      → ReadsAll (suc fuel) rec (param ty args)
  unfolding Reads ReadsAll params_loop print_params meant_params eat_whitespace eat_if matches
  params_loop-param fuel rec ty args reads all_read tys t rest =
      let next = space ∷ print_params args (t ∷ rest) in
      rw (params_loop, eat_whitespace-print ty (tok comma "," ∷ next))
        (rw (eat_if-print ty (tok comma "," ∷ next)) (
          rw (reads (tok comma "," ∷ next) refl) (
            rw (eat_whitespace-print_params args (t ∷ rest)) (
              all_read (tys ++ meant number ty ∷ []) t rest
              ∙ ap (λ l. done l (t ∷ rest))
                  (append_assoc tys (meant number ty ∷ []) (meant_params number args))))))

  make_ty-function :
      (fuel : ℕ) (args : Params) (ret : Written)
      → ReadsAll fuel (make_ty number fuel) args
      → Reads (make_ty number fuel) ret
      → Reads (make_ty number (suc fuel)) (function args ret)
  unfolding Reads ReadsAll make_ty type_at print meant named_type is_keyword make_fn_type eat_text
      eat_if matches eat_whitespace
  make_ty-function fuel args ret all_read reads rest h =
      rw (eat_if-paren args (tok colon ":") (space ∷ print ret rest)) (
        rw (all_read [] (tok colon ":") (space ∷ print ret rest)) (
          rw
            (make_ret-reads (make_ty number fuel) (print ret rest) (meant number ret) rest
              (eat_whitespace-print ret rest) (reads rest h))
            refl))

  mutual
    unfolding fuel_of fuel_of_params is_written are_written

    make_ty-Reads :
        (ty : Written) (fuel : ℕ)
        → fuel_of ty ≤ fuel
        → is_written ty ≡ true
        → Reads (make_ty number fuel) ty
    make_ty-Reads ty zero le w = absurd (no_fuel ty le)
    make_ty-Reads (name text) (suc fuel) le w = make_ty-name fuel text w
    make_ty-Reads (names first segs) (suc fuel) le w = make_ty-names fuel first segs (omega arith) w
    make_ty-Reads (pointer ty) (suc fuel) le w =
        make_ty-pointer fuel ty (make_ty-Reads ty fuel (omega arith) w)
    make_ty-Reads (sized size ty) (suc fuel) le w =
        make_ty-sized fuel size ty (and-left (is_some (parse_usize size)) (is_written ty) w) (
          make_ty-Reads ty fuel (omega arith)
            (and-right (is_some (parse_usize size)) (is_written ty) w))
    make_ty-Reads (function args ret) (suc fuel) le w =
        make_ty-function fuel args ret
          (params_loop-ReadsAll args fuel fuel (omega arith) (omega arith)
            (and-left (are_written args) (is_written ret) w))
          (make_ty-Reads ret fuel (omega arith) (and-right (are_written args) (is_written ret) w))

    params_loop-ReadsAll :
        (args : Params) (fuel n : ℕ)
        → fuel_of_params args ≤ n
        → fuel_of_params args ≤ fuel
        → are_written args ≡ true
        → ReadsAll n (make_ty number fuel) args
    params_loop-ReadsAll empty fuel zero le le' w = absurd (omega arith)
    params_loop-ReadsAll (param ty args) fuel zero le le' w = absurd (omega arith)
    params_loop-ReadsAll empty fuel (suc n) le le' w = params_loop-empty n (make_ty number fuel)
    params_loop-ReadsAll (param ty args) fuel (suc n) le le' w =
        params_loop-param n (make_ty number fuel) ty args
          (make_ty-Reads ty fuel (omega arith) (and-left (is_written ty) (are_written args) w))
          (params_loop-ReadsAll args fuel n (omega arith) (omega arith)
            (and-right (is_written ty) (are_written args) w))

  -- `make_ty` reads back what is written: in front of a token that ends a type, the tokens of a
  -- written type give the type that is meant, and the tokens behind it are left. A path is to begin with no
  -- keyword and no type's name, no name is to be white space, and a size is to fit 64 bits. The fuel
  -- is `fuel_of` the type, or more.
  pub make_ty-print :
      (ty : Written) (fuel : ℕ) (rest : List Tok)
      → fuel_of ty ≤ fuel
      → is_written ty ≡ true
      → ends rest ≡ true
      → make_ty number fuel (print ty rest) ≡ done (meant number ty) rest
  unfolding Reads
  make_ty-print ty fuel rest le w h = make_ty-Reads ty fuel le w rest h
