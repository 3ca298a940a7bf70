-- ===== src/Parser/Items.antt =====
-- src/ast/parse.rs: `parse_const`, `parse_fn`, `parse_linked_fn`, `parse_impl`, `parse_trait`, `parse_import`,
-- `make_trait_fn` and `parse`, the loop over a file; the data are of src/ast/types.rs, without their spans. What
-- an import starts, the thread that parses the other file, is not here.
pub mod Loop
pub mod Methods
mod Tests
use Prim.Native.String.{String}
use text.Mathlib.Text.{◌==◌}
use enumc.Prelude.{ℕ, zero, suc, Bool, true, false, List, [], ◌∷◌, ◌++◌, Option, if◌then◌else◌}
use enumc.Types.Ty.{Ty, void}
use enumc.Lexer.Token.{TokenKind}
use enumc.Lexer.Match.{TokenMatch, matches}
use enumc.Parser.Stream.{
  Parse, done, failed, panic, out_of_fuel, expected, pure, then_at, ◌>>=◌, ◌>>◌, curr_kind,
  input_curr, eat_tkn, eat_if, eat_whitespace, make_ident,
}
use enumc.Parser.Eat.{eat_if_kw, eat_attr}
use enumc.Parser.Types.{make_ty, make_types, make_path, is_keyword}
use enumc.Parser.Decls.{
  Param, Generic, Struct, Enum, make_params, make_generics, parse_struct, parse_enum,
}
use enumc.Parser.Expr.{Expr}
use enumc.Parser.Stmt.{Stmts, no_stmts, Const}
use enumc.Parser.Stmt.State.{Flagged, lift, return, ◌>=>◌, with_flag}
use enumc.Parser.Stmt.Block.{make_block, make_stmt, expr, blanks}

pub data FuncKind : Type 0 where
  normal linked extern empty_trait pointer : FuncKind

pub record Func : Type 0 where
  pub ident : ℕ
  pub ret : Ty
  pub generics : List Generic
  pub params : List Param
  pub stmts : Stmts
  pub kind : FuncKind

pub data TraitMethod : Type 0 where
  default no_body : Func → TraitMethod

pub record Trait : Type 0 where
  pub path : List ℕ
  pub generics : List Generic
  pub method : TraitMethod

pub record Impl : Type 0 where
  pub path : List ℕ
  pub type_arguments : List Ty
  pub method : Func

pub data Decl : Type 0 where
  struct_decl : Struct → Decl
  enum_decl : Enum → Decl
  func_decl : Func → Decl
  trait_decl : Trait → Decl
  impl_decl : Impl → Decl
  const_decl : Const → Decl
  import_decl : List ℕ → Decl

-- What stands in front of a function's body: its name, generics, parameters and return type
pub record Signature : Type 0 where
  pub ident : ℕ
  pub generics : List Generic
  pub params : List Param
  pub ret : Ty

abbrev pub func_of : Signature → FuncKind → Stmts → Func
func_of sig kind stmts = record {
  ident = sig.ident;
  ret = sig.ret;
  generics = sig.generics;
  params = sig.params;
  stmts = stmts;
  kind = kind;
}

abbrev pub is_eof : TokenKind → Bool
is_eof TokenKind.eof = true
is_eof kind = false

module _ (number : String → ℕ) where
  -- The parameters behind `(`
  unfoldable pub make_param_list : ℕ → Parse (List Param)
  make_param_list fuel =
      eat_if TokenMatch.open_paren
      >> (eat_whitespace
          >> (eat_if TokenMatch.close_paren
              >>= (λ closed. elim closed [ true ↦ pure [] | false ↦ make_params number fuel ])))

  -- `: type`, or nothing
  unfoldable pub make_ret_ty : ℕ → Parse Ty
  make_ret_ty fuel = eat_if TokenMatch.colon >>= (λ typed. elim typed [
    | true ↦ eat_whitespace >> make_ty number fuel
    | false ↦ eat_whitespace >> pure void
  ])

  -- `(params): ret`, behind the name and the generics
  unfoldable pub make_signature : ℕ → ℕ → List Generic → Parse Signature
  make_signature fuel name gens = make_param_list fuel >>= (λ ps.
      eat_if TokenMatch.close_paren
      >> (eat_whitespace
          >> (make_ret_ty fuel >>= (λ ty.
              eat_whitespace
              >> pure (record { ident = name; generics = gens; params = ps; ret = ty })))))

  -- `fn name<generics>(params): ret`
  unfoldable pub make_fn_head : ℕ → Parse Signature
  make_fn_head fuel =
      eat_if_kw "fn"
      >> (eat_whitespace
          >> (make_ident >>= (λ text.
              make_generics number fuel >>= (λ gens. make_signature fuel (number text) gens))))

  -- `fn name(params): ret`, with the generics of the trait
  unfoldable pub make_method_head : ℕ → List Generic → Parse Signature
  make_method_head fuel gens =
      eat_if_kw "fn"
      >> (eat_whitespace >> (make_ident >>= (λ text. make_signature fuel (number text) gens)))

  unfoldable pub parse_import : ℕ → Parse (List ℕ)
  parse_import fuel =
      eat_if_kw "import"
      >> (eat_whitespace
          >> (make_path number fuel >>= (λ path. eat_if TokenMatch.semi >> pure path)))

module _ (number : String → ℕ) (parse_f64 : Bool → String → Option ℕ) where
  abbrev pub body : ℕ → Flagged Stmts
  body fuel = make_block fuel (make_stmt number parse_f64 fuel)

  unfoldable pub parse_fn : ℕ → Flagged Func
  parse_fn fuel =
      lift (make_fn_head number fuel)
      >=> (λ sig. body fuel >=> (λ stmts. return (func_of sig FuncKind.normal stmts)))

  unfoldable pub parse_linked_fn : ℕ → Flagged Func
  parse_linked_fn fuel = lift (eat_if_kw "linked") >=> (λ u. blanks >=> (λ u.
      lift (make_fn_head number fuel) >=> (λ sig. lift (eat_if TokenMatch.semi) >=> (λ ended.
        elim ended [
          | true ↦ return (func_of sig FuncKind.linked no_stmts)
          | false ↦ body fuel >=> (λ stmts. return (func_of sig FuncKind.linked stmts))
        ]))))

  unfoldable pub parse_const : ℕ → Flagged Const
  parse_const fuel = lift (eat_if_kw "const" >> (eat_whitespace >> eat_if_kw "mut")) >=> (λ mutable.
      lift (eat_whitespace >> make_ident) >=> (λ text.
        lift
          (eat_whitespace >> (eat_if TokenMatch.colon >> (eat_whitespace >> make_ty number fuel)))
        >=> (λ ty. lift (eat_whitespace >> (eat_if TokenMatch.eq >> eat_whitespace)) >=> (λ u.
            expr number parse_f64 fuel >=> (λ init.
              lift (eat_whitespace >> eat_if TokenMatch.semi) >=> (λ u.
                return
                  (record { ident = number text; ty = ty; init = init; mutable = mutable })))))))

  -- The body of a trait's method: behind `;` a block is read, and otherwise none is.
  abbrev pub trait_body : ℕ → Signature → Flagged TraitMethod
  trait_body fuel sig = lift (eat_if TokenMatch.semi) >=> (λ ended. elim ended [
    | true ↦ body fuel >=> (λ stmts. return (default (func_of sig FuncKind.normal stmts)))
    | false ↦ return (no_body (func_of sig FuncKind.empty_trait no_stmts))
  ])

  unfoldable pub make_trait_fn : ℕ → List Generic → Flagged TraitMethod
  make_trait_fn fuel gens =
      lift (make_method_head number fuel gens) >=> (λ sig. trait_body fuel sig)

  unfoldable pub parse_trait : ℕ → Flagged Trait
  parse_trait fuel =
      lift (eat_if_kw "trait" >> (eat_whitespace >> make_path number fuel)) >=> (λ path.
        lift (make_generics number fuel) >=> (λ gens.
          lift (eat_if TokenMatch.open_brace >> eat_whitespace) >=> (λ u.
            make_trait_fn fuel gens >=> (λ method.
              lift (eat_if TokenMatch.close_brace)
              >=> (λ u. return (record { path = path; generics = gens; method = method }))))))

  unfoldable pub parse_impl : ℕ → Flagged Impl
  parse_impl fuel =
      lift (eat_if_kw "impl" >> (eat_whitespace >> make_path number fuel)) >=> (λ path.
        lift (make_types fuel (make_ty number fuel) TokenMatch.lt TokenMatch.gt) >=> (λ tys.
          lift (eat_if TokenMatch.open_brace >> eat_whitespace) >=> (λ u.
            parse_fn fuel >=> (λ method.
              lift (eat_if TokenMatch.close_brace)
              >=> (λ u. return (record { path = path; type_arguments = tys; method = method }))))))

  -- An import, whose first name is that of a file
  abbrev pub checked_import : List ℕ → Flagged Decl
  checked_import [] = λ flag toks. panic
  checked_import (seg ∷ segs) = return (import_decl (seg ∷ segs))

  -- The item of a keyword
  unfoldable pub item_of : String → ℕ → Flagged Decl
  item_of text fuel =
      if text == "const"
      then parse_const fuel >=> (λ item. return (const_decl item))
      else if text == "fn"
      then parse_fn fuel >=> (λ item. return (func_decl item))
      else if text == "linked"
      then parse_linked_fn fuel >=> (λ item. return (func_decl item))
      else if text == "impl"
      then parse_impl fuel >=> (λ item. return (impl_decl item))
      else if text == "struct"
      then lift (parse_struct number fuel) >=> (λ item. return (struct_decl item))
      else if text == "enum"
      then lift (parse_enum number fuel) >=> (λ item. return (enum_decl item))
      else if text == "trait"
      then parse_trait fuel >=> (λ item. return (trait_decl item))
      else if text == "import"
      then lift (parse_import number fuel) >=> checked_import
      else λ flag toks. panic

  unfoldable pub parse_item : ℕ → Flagged Decl
  parse_item fuel flag toks = elim (is_keyword (input_curr toks)) [
    | true ↦ item_of (input_curr toks) fuel flag toks
    | false ↦ failed expected
  ]

  -- A round of `parse` at a kind, where `again` is the rest of the loop, for the items so far
  unfoldable pub parse_at :
      TokenKind → ℕ → (List Decl → Flagged (List Decl)) → List Decl → Flagged (List Decl)
  parse_at TokenKind.eof fuel again items = return items
  parse_at (TokenKind.line_comment doc_style) fuel again items = lift eat_tkn >=> (λ u. again items)
  parse_at (TokenKind.block_comment doc_style terminated) fuel again items =
      lift eat_tkn >=> (λ u. again items)
  parse_at TokenKind.whitespace fuel again items = lift eat_tkn >=> (λ u. again items)
  parse_at TokenKind.ident fuel again items =
      parse_item fuel >=> (λ item. blanks >=> (λ u. again (items ++ item ∷ [])))
  parse_at TokenKind.pound fuel again items = lift eat_attr >=> (λ u. again items)
  parse_at TokenKind.close_brace fuel again items =
      lift (eat_if TokenMatch.close_brace) >=> (λ u flag toks. elim (is_eof (curr_kind toks)) [
        | true ↦ done (items, flag) toks
        | false ↦ (blanks >=> (λ u. again items)) flag toks
      ])
  parse_at TokenKind.unknown fuel again items = λ flag toks. failed expected
  parse_at kind fuel again items = λ flag toks. panic

  unfoldable pub parse_loop : ℕ → ℕ → List Decl → Flagged (List Decl)
  parse_loop zero depth items flag toks = out_of_fuel
  parse_loop (suc fuel) depth items flag toks =
      parse_at (curr_kind toks) depth (parse_loop fuel depth) items flag toks

  -- The items of a file
  unfoldable pub parse : ℕ → Parse (List Decl)
  parse fuel toks = then_at (parse_loop fuel fuel [] false toks) (λ r. pure r.0)
