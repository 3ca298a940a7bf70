-- ===== src/Parser/Items/Methods.antt =====
-- src/ast/parse.rs: `make_trait_fn` on a written method of a trait.
use Prim.Native.String.{String}
use mathlib.Core.List.{append_assoc}
use enumc.Prelude.{
  ℕ, zero, suc, ◌+◌, ◌≤◌, ◌≡◌, refl, ap, ◌∙◌, Bool, true, false, ◌&&◌, List, [], ◌∷◌, ◌++◌, Option,
  arith,
}
use enumc.Lexer.Token.{ident, semi, comma, colon, open_paren, close_paren, close_brace}
use enumc.Lexer.Match.{TokenMatch, matches}
use enumc.Parser.Stream.{
  Tok, Parsed, done, then_at, ◌>>◌, pure, eat_if, eat_whitespace, cmp_seq_ignore_ws, zip_all,
  without_blanks,
}
use enumc.Parser.Eat.{eat_if_kw}
use enumc.Parser.Types.{make_ty}
use enumc.Parser.Types.Print.{Written, tok, space, print, meant, is_written, fuel_of, ends}
use enumc.Parser.Types.Segs.{
  and-left, and-right, make_ident-ident, eat_whitespace-print, eat_whitespace-ends,
}
use enumc.Parser.Types.RoundTrip.{make_ty-print}
use enumc.Parser.Decls.{Generic, Param, comma_or_end, params_loop, make_params}
use enumc.Parser.Decls.Print.{
  WrittenField, meant_field, meant_fields, written_fields, fuel_of_fields,
}
use enumc.Parser.Decls.Fields.{make_field-print, comma_or_end-more}
use enumc.Parser.Expr.Chain.{gap}
use enumc.Parser.Stmt.{no_stmts}
use enumc.Parser.Stmt.Block.{make_block}
use enumc.Parser.Items.{
  Signature, FuncKind, default, no_body, func_of, make_param_list, make_ret_ty, make_signature,
  make_method_head, make_trait_fn, trait_body,
}

pub record WrittenMethod : Type 0 where
  pub name : String
  pub params : List WrittenField
  pub ret : Written

-- The first parameter, and the others, each behind a comma and a space; then `)`
unfoldable pub print_params : WrittenField → List WrittenField → List Tok → List Tok
print_params f [] rest =
    tok ident f.name ∷ tok colon ":" ∷ space ∷ print f.ty (tok close_paren ")" ∷ rest)
print_params f (g ∷ params) rest =
    tok ident f.name
    ∷ tok colon ":"
    ∷ space
    ∷ print f.ty (tok comma "," ∷ space ∷ print_params g params rest)

abbrev pub print_param_list : List WrittenField → List Tok → List Tok
print_param_list [] rest = tok close_paren ")" ∷ rest
print_param_list (f ∷ params) rest = print_params f params rest

-- `fn name(params): ret` in front of `rest`
unfoldable pub print_method : WrittenMethod → List Tok → List Tok
print_method m rest =
    tok ident "fn"
    ∷ space
    ∷ tok ident m.name
    ∷ tok open_paren "("
    ∷ print_param_list m.params (tok colon ":" ∷ space ∷ print m.ret rest)

abbrev pub is_method : WrittenMethod → Bool
is_method m = written_fields m.params && is_written m.ret

abbrev pub fuel_of_method : WrittenMethod → ℕ
fuel_of_method m = fuel_of_fields m.params + fuel_of m.ret

print_params-start :
    (f : WrittenField) (params : List WrittenField) (rest : List Tok)
    → eat_whitespace (print_params f params rest) ≡ done tt (print_params f params rest)
unfolding eat_whitespace print_params
print_params-start f [] rest = refl
print_params-start f (g ∷ params) rest = refl

module _ (number : String → ℕ) where
  abbrev pub meant_signature : List Generic → WrittenMethod → Signature
  meant_signature gens m = record {
    ident = number m.name;
    generics = gens;
    params = meant_fields number m.params;
    ret = meant number m.ret;
  }

  params_loop-print :
      (f : WrittenField) (params : List WrittenField) (n fuel : ℕ) (acc : List Param)
      (rest : List Tok)
      → fuel_of_fields (f ∷ params) ≤ n
      → fuel_of_fields (f ∷ params) ≤ fuel
      → written_fields (f ∷ params) ≡ true
      → params_loop number n (make_ty number fuel) acc (print_params f params rest)
        ≡ done (acc ++ meant_fields number (f ∷ params)) (tok close_paren ")" ∷ rest)
  unfolding params_loop print_params eat_if matches eat_whitespace
  params_loop-print f params zero fuel acc rest le lf w = absurd (omega arith)
  params_loop-print f [] (suc n) fuel acc rest le lf w =
      ap
        (λ p. then_at p (λ param.
          comma_or_end (params_loop number n (make_ty number fuel) (acc ++ param ∷ []))
            (acc ++ param ∷ [])))
        (make_field-print number fuel f (tok close_paren ")" ∷ rest) (omega arith)
          (and-left (is_written f.ty) true w) refl)
  params_loop-print f (g ∷ params) (suc n) fuel acc rest le lf w =
      let next = tok comma "," ∷ space ∷ print_params g params rest in
      let more = acc ++ meant_field number f ∷ [] in
      ap
        (λ p. then_at p (λ param.
          comma_or_end (params_loop number n (make_ty number fuel) (acc ++ param ∷ []))
            (acc ++ param ∷ [])))
        (make_field-print number fuel f next (omega arith)
          (and-left (is_written f.ty) (written_fields (g ∷ params)) w) refl)
      ∙ comma_or_end-more (params_loop number n (make_ty number fuel) more) more
          (print_params g params rest) (print_params-start g params rest)
      ∙ params_loop-print g params n fuel more rest (omega arith) (omega arith)
          (and-right (is_written f.ty) (written_fields (g ∷ params)) w)
      ∙ ap (λ l. done l (tok close_paren ")" ∷ rest))
          (append_assoc acc (meant_field number f ∷ []) (meant_fields number (g ∷ params)))

  make_ret_ty-print :
      (fuel : ℕ) (ret : Written) (rest : List Tok)
      → fuel_of ret ≤ fuel
      → is_written ret ≡ true
      → ends rest ≡ true
      → make_ret_ty number fuel (tok colon ":" ∷ space ∷ print ret rest)
        ≡ done (meant number ret) rest
  unfolding make_ret_ty eat_if matches eat_whitespace
  make_ret_ty-print fuel ret rest le w h =
      rw (eat_whitespace-print ret rest) (make_ty-print number ret fuel rest le w h)

  -- The parameters; the parenthesis behind them is left, unless there are none.
  make_param_list-print :
      (f : WrittenField) (params : List WrittenField) (fuel : ℕ) (rest : List Tok)
      → fuel_of_fields (f ∷ params) ≤ fuel
      → written_fields (f ∷ params) ≡ true
      → make_param_list number fuel (tok open_paren "(" ∷ print_params f params rest)
        ≡ done (meant_fields number (f ∷ params)) (tok close_paren ")" ∷ rest)
  unfolding make_param_list make_params eat_if matches eat_whitespace print_params
  make_param_list-print f [] fuel rest le w =
      ap (λ p. then_at p (λ params. eat_whitespace >> pure params))
        (params_loop-print f [] fuel fuel [] rest le le w)
  make_param_list-print f (g ∷ params) fuel rest le w =
      ap (λ p. then_at p (λ params. eat_whitespace >> pure params))
        (params_loop-print f (g ∷ params) fuel fuel [] rest le le w)

  -- The return type, behind the parameters
  ret_ty-print :
      (fuel : ℕ) (gens : List Generic) (name : ℕ) (ps : List Param) (ret : Written)
      (rest : List Tok)
      → fuel_of ret ≤ fuel
      → is_written ret ≡ true
      → ends rest ≡ true
      → then_at {B = Signature}
          (make_ret_ty number fuel (tok colon ":" ∷ space ∷ print ret rest))
          (λ ty.
            eat_whitespace
            >> pure (record { ident = name; generics = gens; params = ps; ret = ty }))
        ≡ done (record { ident = name; generics = gens; params = ps; ret = meant number ret }) rest
  ret_ty-print fuel gens name ps ret rest le w h =
      rw (make_ret_ty-print fuel ret rest le w h) (rw (eat_whitespace-ends rest h) refl)

  make_signature-print :
      (fuel : ℕ) (gens : List Generic) (name : ℕ) (params : List WrittenField) (ret : Written)
      (rest : List Tok)
      → fuel_of_fields params ≤ fuel
      → fuel_of ret ≤ fuel
      → written_fields params ≡ true
      → is_written ret ≡ true
      → ends rest ≡ true
      → make_signature number fuel name gens
          (tok open_paren "(" ∷ print_param_list params (tok colon ":" ∷ space ∷ print ret rest))
        ≡ done
            (record {
              ident = name;
              generics = gens;
              params = meant_fields number params;
              ret = meant number ret;
            })
            rest
  unfolding make_signature make_param_list eat_if matches eat_whitespace
  make_signature-print fuel gens name [] ret rest lp le wp w h =
      ret_ty-print fuel gens name [] ret rest le w h
  make_signature-print fuel gens name (f ∷ params) ret rest lp le wp w h =
      rw (make_param_list-print f params fuel (tok colon ":" ∷ space ∷ print ret rest) lp wp)
        (ret_ty-print fuel gens name (meant_fields number (f ∷ params)) ret rest le w h)

  make_method_head-print :
      (fuel : ℕ) (gens : List Generic) (m : WrittenMethod) (rest : List Tok)
      → fuel_of_method m ≤ fuel
      → is_method m ≡ true
      → ends rest ≡ true
      → make_method_head number fuel gens (print_method m rest) ≡ done (meant_signature gens m) rest
  unfolding make_method_head print_method eat_if_kw eat_if matches eat_whitespace
  make_method_head-print fuel gens m rest le w h =
      let behind_name = print_param_list m.params (tok colon ":" ∷ space ∷ print m.ret rest) in
      rw (make_ident-ident m.name (tok open_paren "(" ∷ behind_name) refl) (
        make_signature-print fuel gens (number m.name) m.params m.ret rest (omega arith)
          (omega arith) (and-left (written_fields m.params) (is_written m.ret) w)
          (and-right (written_fields m.params) (is_written m.ret) w) h)

module _ (number : String → ℕ) (parse_f64 : Bool → String → Option ℕ) where
  trait_body-semi :
      (fuel : ℕ) (flag : Bool) (sig : Signature) (b : Bool) (t : Tok) (rest : List Tok)
      → trait_body number parse_f64 fuel sig flag
          (tok semi ";" ∷ gap b (tok close_brace "}" ∷ t ∷ rest))
        ≡ done
            (default (func_of sig FuncKind.normal no_stmts), flag)
            (tok close_brace "}" ∷ t ∷ rest)
  unfolding make_block cmp_seq_ignore_ws without_blanks zip_all eat_if matches eat_whitespace
  trait_body-semi fuel flag sig true t rest = refl
  trait_body-semi fuel flag sig false t rest = refl

  head_trait_fn :
      (fuel : ℕ) (gens : List Generic) (flag : Bool) (m : WrittenMethod) (rest : List Tok)
      → fuel_of_method m ≤ fuel
      → is_method m ≡ true
      → ends rest ≡ true
      → make_trait_fn number parse_f64 fuel gens flag (print_method m rest)
        ≡ trait_body number parse_f64 fuel (meant_signature number gens m) flag rest
  unfolding make_trait_fn
  head_trait_fn fuel gens flag m rest le w h =
      ap
        (λ p.
          then_at {A = Signature × Bool} (then_at p (λ a toks. Parsed.done (a, flag) toks))
            (λ r. trait_body number parse_f64 fuel r.0 r.1))
        (make_method_head-print number fuel gens m rest le w h)

  -- A written method `fn name(params): type` of a trait whose types are such as `make_ty` reads back, with enough
  -- fuel. With a semicolon and the `}` of the trait behind it, with or without white space between the two, and a token
  -- more, it becomes a default method without statements. With anything else behind it that ends a type, such as the
  -- `{` of its body, it becomes one without a body, and what is behind it is left.
  pub make_trait_fn-print :
      (fuel : ℕ) (gens : List Generic) (flag : Bool) (m : WrittenMethod) (b : Bool) (t u : Tok)
      (rest toks : List Tok)
      → fuel_of_method m ≤ fuel
      → is_method m ≡ true
      → ends (u ∷ toks) ≡ true
      → matches TokenMatch.semi u.kind ≡ false
      → (make_trait_fn number parse_f64 fuel gens flag
            (print_method m (tok semi ";" ∷ gap b (tok close_brace "}" ∷ t ∷ rest)))
          ≡ done
              (default (func_of (meant_signature number gens m) FuncKind.normal no_stmts), flag)
              (tok close_brace "}" ∷ t ∷ rest))
        × (make_trait_fn number parse_f64 fuel gens flag (print_method m (u ∷ toks))
            ≡ done
                (
                  no_body (func_of (meant_signature number gens m) FuncKind.empty_trait no_stmts),
                  flag,
                )
                (u ∷ toks))
  make_trait_fn-print fuel gens flag m b t u rest toks le w h ns =
      let sig = meant_signature number gens m in
      (
        head_trait_fn fuel gens flag m (tok semi ";" ∷ gap b (tok close_brace "}" ∷ t ∷ rest)) le w
              refl
            ∙ trait_body-semi fuel flag sig b t rest,
        head_trait_fn fuel gens flag m (u ∷ toks) le w h ∙ unfold eat_if in rw ns refl,
      )
