-- ===== src/Parser/Expr/Left.antt =====
-- src/ast/parse.rs: `make_lh_expr`, the expressions that start with a name or with `*`. The flag
-- `in_match_stmt` of the parser is a parameter, since no expression changes it.
use Prim.Native.String.{String}
use enumc.Prelude.{ℕ, zero, suc, Bool, true, false, ◌||◌, List, [], ◌∷◌, ◌++◌}
use enumc.Lexer.Match.{TokenMatch, matches}
use enumc.Parser.Stream.{
  Tok, expected, Parse, panic, out_of_fuel, pure, fail, then_at, ◌>>=◌, ◌>>◌, curr_kind, eat_if,
  eat_whitespace, make_ident, cmp_seq_ignore_ws,
}
use enumc.Parser.Eat.{count_eaten_seq, check_next, eat_seq_ignore_ws}
use enumc.Parser.Types.{make_ty, make_path}
use enumc.Parser.Types.Args.{make_type_args}
use enumc.Parser.Expr.{Expr, to_exprs, to_inits}
use enumc.Parser.Expr.Lists.{make_arg_list, make_field_list}

-- The indices `expr][expr` of an array; `rec` is `make_expr`.
unfoldable pub indices_loop : ℕ → Parse Expr → List Expr → Parse (List Expr)
indices_loop zero rec exprs toks = out_of_fuel
indices_loop (suc fuel) rec exprs toks = then_at (rec toks) (λ e.
    eat_whitespace
    >> (eat_seq_ignore_ws (TokenMatch.close_bracket ∷ TokenMatch.open_bracket ∷ []) >>= (λ more.
        elim more [
          | true ↦ eat_whitespace >> indices_loop fuel rec (exprs ++ e ∷ [])
          | false ↦ pure (exprs ++ e ∷ [])
        ])))

-- `path.segs.pop()` of the names, which are not empty: the path and the variant
abbrev pub popped : ℕ → List ℕ → List ℕ × ℕ
popped seg [] = ([], seg)
popped seg (next ∷ segs) = (seg ∷ (popped next segs).0, (popped next segs).1)

-- What stands behind a path
pub data Behind : Type 0 where
  just_ident : ℕ → Behind
  func_call struct_init nothing : Behind
  itemless_enum : List ℕ → ℕ → Behind

unfoldable pub is_func_call : List Tok → Bool
is_func_call toks =
    cmp_seq_ignore_ws (TokenMatch.colon ∷ TokenMatch.colon ∷ TokenMatch.lt ∷ []) toks
    || matches TokenMatch.open_paren (curr_kind toks)

unfoldable pub is_struct_in_match : List Tok → Bool
is_struct_in_match toks =
    cmp_seq_ignore_ws
      (TokenMatch.ident ∷ TokenMatch.colon ∷ TokenMatch.ident ∷ TokenMatch.comma ∷ []) toks

unfoldable pub is_struct : Bool → List Tok → Bool
is_struct in_match toks = elim in_match [
  | true ↦ is_struct_in_match toks
  | false ↦ matches TokenMatch.open_brace (curr_kind toks)
]

-- The branches behind a path, in the order of the source
unfoldable pub behind : Bool → List ℕ → List Tok → Behind
behind in_match [] toks = elim (is_func_call toks) [ true ↦ func_call | false ↦ nothing ]
behind in_match (seg ∷ []) toks = elim (is_func_call toks) [
  | true ↦ func_call
  | false ↦ elim (is_struct in_match toks) [ true ↦ struct_init | false ↦ just_ident seg ]
]
behind in_match (seg ∷ next ∷ segs) toks = elim (is_func_call toks) [
  | true ↦ func_call
  | false ↦ elim (is_struct in_match toks) [
    | true ↦ struct_init
    | false ↦ elim (matches TokenMatch.semi (curr_kind toks)) [
      | true ↦ itemless_enum (popped seg (next ∷ segs)).0 (popped seg (next ∷ segs)).1
      | false ↦ nothing
    ]
  ]
]

-- Which of the four kinds of a left hand expression it is
pub data Start : Type 0 where
  deref field_access index path_start no_start : Start

unfoldable pub start_of : List Tok → Start
start_of toks = elim (matches TokenMatch.star (curr_kind toks)) [
  | true ↦ deref
  | false ↦ elim (matches TokenMatch.ident (curr_kind toks)) [
    | false ↦ no_start
    | true ↦ elim (check_next TokenMatch.dot toks) [
      | true ↦ field_access
      | false ↦ elim (check_next TokenMatch.open_bracket toks) [ true ↦ index | false ↦ path_start ]
    ]
  ]
]

module _ (number : String → ℕ) (in_match : Bool) where
  -- `ident[expr]`
  unfoldable pub make_index : ℕ → Parse Expr → Parse Expr
  make_index fuel rec = make_ident >>= (λ text.
      eat_if TokenMatch.open_bracket
      >> (eat_whitespace
          >> (indices_loop fuel rec [] >>= (λ exprs.
              eat_if TokenMatch.close_bracket
              >> pure (Expr.array (number text) (to_exprs exprs))))))

  -- The type arguments and the arguments behind a path
  unfoldable pub make_call : ℕ → Parse Expr → List ℕ → Parse Expr
  make_call fuel rec path = make_type_args fuel (make_ty number fuel) >>= (λ type_args.
      eat_whitespace
      >> (eat_if TokenMatch.open_paren
          >> (make_arg_list fuel rec [] >>= (λ args.
              eat_whitespace
              >> (eat_if TokenMatch.close_paren
                  >> pure (Expr.call path (to_exprs args) type_args))))))

  abbrev pub behind_at : ℕ → Parse Expr → List ℕ → Behind → Parse Expr
  behind_at fuel rec path (just_ident seg) = pure (Expr.ident seg)
  behind_at fuel rec path func_call = make_call fuel rec path
  behind_at fuel rec path struct_init =
      make_field_list number fuel rec >>= (λ inits. pure (Expr.struct_init path (to_inits inits)))
  behind_at fuel rec path (itemless_enum segs variant) =
      pure (Expr.enum_init segs variant (to_exprs []))
  behind_at fuel rec path nothing = fail expected

  -- The branch of a path
  unfoldable pub make_path_expr : ℕ → Parse Expr → Parse Expr
  make_path_expr fuel rec toks = then_at (eat_whitespace toks) (λ u.
      make_path number fuel
      >>= (λ path rest. behind_at fuel rec path (behind in_match path rest) rest))

  -- `lh` is `make_lh_expr` itself.
  unfoldable pub make_deref : Parse Expr → Parse Expr
  make_deref lh toks = then_at (count_eaten_seq TokenMatch.star toks) (λ indir rest.
      elim (matches TokenMatch.ident (curr_kind rest)) [
        | true ↦ then_at (lh rest) (λ e. pure (Expr.deref indir e))
        | false ↦ panic
      ])

  unfoldable pub make_field_access : Parse Expr → Parse Expr
  make_field_access lh = make_ident >>= (λ text.
      eat_if TokenMatch.dot
      >> (lh >>= (λ rhs. pure (Expr.field_access (Expr.ident (number text)) rhs))))

  abbrev pub left_at : ℕ → Parse Expr → Parse Expr → Start → Parse Expr
  left_at fuel rec lh deref = make_deref lh
  left_at fuel rec lh field_access = make_field_access lh
  left_at fuel rec lh index = make_index fuel rec
  left_at fuel rec lh path_start = make_path_expr fuel rec
  left_at fuel rec lh no_start = fail expected

  unfoldable pub make_lh_expr : ℕ → Parse Expr → Parse Expr
  make_lh_expr zero rec toks = out_of_fuel
  make_lh_expr (suc fuel) rec toks = left_at fuel rec (make_lh_expr fuel rec) (start_of toks) toks
