-- ===== src/Parser/Stmt/Pattern.antt =====
-- src/ast/parse.rs: `make_pat` and `make_pat_list`, the patterns of a match. The nesting and the lists are
-- recursion on fuel.
use Prim.Native.String.{String}
use enumc.Prelude.{ℕ, zero, suc, Bool, true, false, List, [], ◌∷◌, ◌++◌, Option, length}
use enumc.Lexer.Token.{TokenKind}
use enumc.Lexer.Match.{TokenMatch, matches}
use enumc.Parser.Stream.{
  Parse, done, panic, out_of_fuel, pure, then_at, ◌>>=◌, ◌>>◌, curr_kind, eat_if, eat_whitespace,
}
use enumc.Parser.Types.{make_path}
use enumc.Parser.Literal.{make_literal}
use enumc.Parser.Expr.Left.{popped}
use enumc.Parser.Stmt.{Pat, enum_pat, array_pat, bind, wild, value, to_pats}

-- `rec` is `make_pat`. The list ends at `]`, not at `)`.
unfoldable pub make_pat_list : ℕ → Parse Pat → List Pat → Parse (List Pat)
make_pat_list zero rec pats toks = out_of_fuel
make_pat_list (suc fuel) rec pats toks = elim (matches TokenMatch.close_bracket (curr_kind toks)) [
  | true ↦ done pats toks
  | false ↦ then_at (rec toks) (λ p. eat_if TokenMatch.comma >>= (λ more. elim more [
    | true ↦ eat_whitespace >> make_pat_list fuel rec (pats ++ p ∷ [])
    | false ↦ pure (pats ++ p ∷ [])
  ]))
]

-- The patterns in the parentheses of a variant, if there are any
unfoldable pub make_items : ℕ → Parse Pat → Parse (List Pat)
make_items fuel rec = eat_if TokenMatch.open_paren >>= (λ opened. elim opened [
  | true ↦
      eat_whitespace
      >> (make_pat_list fuel rec []
          >>= (λ pats. eat_whitespace >> (eat_if TokenMatch.close_paren >> pure pats)))
  | false ↦ pure []
])

-- A path of one name is a binding, a longer one ends in a variant.
abbrev pub path_pat : ℕ → Parse Pat → List ℕ → Parse Pat
path_pat fuel rec [] = λ toks. panic
path_pat fuel rec (seg ∷ []) = pure (bind (wild seg))
path_pat fuel rec (seg ∷ next ∷ segs) = make_items fuel rec >>= (λ pats.
    pure (enum_pat (popped seg (next ∷ segs)).0 (popped seg (next ∷ segs)).1 (to_pats pats)))

module _ (number : String → ℕ) (parse_f64 : Bool → String → Option ℕ) where
  unfoldable pub pat_at : TokenKind → ℕ → Parse Pat → Parse Pat
  pat_at TokenKind.ident fuel rec = make_path number fuel >>= (λ path. path_pat fuel rec path)
  pat_at TokenKind.open_bracket fuel rec =
      eat_if TokenMatch.open_bracket
      >> (eat_whitespace
          >> (make_pat_list fuel rec [] >>= (λ pats.
              eat_whitespace
              >> (eat_if TokenMatch.close_bracket
                  >> pure (array_pat (length pats) (to_pats pats))))))
  pat_at TokenKind.minus fuel rec =
      make_literal number parse_f64 >>= (λ val. pure (bind (value val)))
  pat_at (TokenKind.literal kind suffix_start) fuel rec =
      make_literal number parse_f64 >>= (λ val. pure (bind (value val)))
  pat_at kind fuel rec = λ toks. panic

  unfoldable pub make_pat : ℕ → Parse Pat
  make_pat zero toks = out_of_fuel
  make_pat (suc fuel) toks = pat_at (curr_kind toks) fuel (make_pat fuel) toks
