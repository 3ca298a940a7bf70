-- ===== src/Parser/MakeOp.antt =====
-- src/ast/parse.rs: `make_op`, which reads an operator off the tokens.
use Prim.Native.String.{String}
use enumc.Prelude.{ℕ, ◌≡◌, refl, true, false, List, [], ◌∷◌, Option, none, some}
use enumc.Lexer.Token.{
  TokenKind, LiteralKind, whitespace, ident, literal, semi, comma, eq, bang, lt, gt, plus, minus,
  star, slash, percent, and, or, caret, close_paren, close_bracket, close_brace, open_brace,
}
use enumc.Lexer.Match.{TokenMatch, matches}
use enumc.Parser.Ops.{AssocOp, is_assign_like}
use enumc.Parser.Stream.{Tok, Parse, done, panic, ◌>>=◌, ◌>>◌, pure, curr_kind, eat_if}
use enumc.Parser.Types.Print.{tok}

-- An operator whose tokens end in `pat`
abbrev pub ending : TokenMatch → AssocOp → Parse (Option AssocOp)
ending pat op = eat_if pat >> pure (some op)

-- Two operators, of which the first has one more token
abbrev pub longer : TokenMatch → Option AssocOp → Parse (Option AssocOp) → Parse (Option AssocOp)
longer pat op shorter = eat_if pat >>= (λ eaten. elim eaten [ true ↦ pure op | false ↦ shorter ])

-- Behind `<`
unfoldable pub after_lt : TokenKind → Parse (Option AssocOp)
after_lt lt toks = ending TokenMatch.lt AssocOp.shift_left toks
after_lt eq toks = ending TokenMatch.eq AssocOp.less_equal toks
after_lt ident toks = done (some AssocOp.less) toks
after_lt (literal kind suffix_start) toks = done (some AssocOp.less) toks
after_lt whitespace toks = done (some AssocOp.less) toks
after_lt kind toks = panic

-- Behind `>`
unfoldable pub after_gt : TokenKind → Parse (Option AssocOp)
after_gt gt toks = ending TokenMatch.gt AssocOp.shift_right toks
after_gt eq toks = ending TokenMatch.eq AssocOp.greater_equal toks
after_gt ident toks = done (some AssocOp.greater) toks
after_gt (literal kind suffix_start) toks = done (some AssocOp.greater) toks
after_gt whitespace toks = done (some AssocOp.greater) toks
after_gt kind toks = panic

abbrev pub by_kind : (TokenKind → Parse (Option AssocOp)) → Parse (Option AssocOp)
by_kind after toks = after (curr_kind toks) toks

abbrev pub fail_panic : Parse (Option AssocOp)
fail_panic toks = panic

unfoldable pub op_at : TokenKind → Parse (Option AssocOp)
op_at eq toks = (eat_if TokenMatch.eq >> longer TokenMatch.eq (some AssocOp.equal) (pure none)) toks
op_at bang toks =
    (eat_if TokenMatch.bang >> longer TokenMatch.eq (some AssocOp.not_equal) fail_panic) toks
op_at lt toks = (eat_if TokenMatch.lt >> by_kind after_lt) toks
op_at gt toks = (eat_if TokenMatch.gt >> by_kind after_gt) toks
op_at plus toks = ending TokenMatch.plus AssocOp.add toks
op_at minus toks = ending TokenMatch.minus AssocOp.subtract toks
op_at star toks = ending TokenMatch.star AssocOp.multiply toks
op_at slash toks = ending TokenMatch.slash AssocOp.divide toks
op_at percent toks = ending TokenMatch.percent AssocOp.modulus toks
op_at and toks =
    (eat_if TokenMatch.and
        >> longer TokenMatch.and (some AssocOp.l_and) (pure (some AssocOp.bit_and)))
      toks
op_at or toks =
    (eat_if TokenMatch.or >> longer TokenMatch.or (some AssocOp.l_or) (pure (some AssocOp.bit_or)))
      toks
op_at caret toks = ending TokenMatch.caret AssocOp.bit_xor toks
op_at close_paren toks = done none toks
op_at close_bracket toks = done none toks
op_at close_brace toks = done none toks
op_at open_brace toks = done none toks
op_at comma toks = done none toks
op_at semi toks = done none toks
op_at kind toks = panic

unfoldable pub make_op : Parse (Option AssocOp)
make_op toks = op_at (curr_kind toks) toks

-- How an operator is written; the assignments are no operators for `make_op`.
unfoldable pub op_kinds : AssocOp → List TokenKind
op_kinds AssocOp.add = plus ∷ []
op_kinds AssocOp.subtract = minus ∷ []
op_kinds AssocOp.multiply = star ∷ []
op_kinds AssocOp.divide = slash ∷ []
op_kinds AssocOp.modulus = percent ∷ []
op_kinds AssocOp.l_and = and ∷ and ∷ []
op_kinds AssocOp.l_or = or ∷ or ∷ []
op_kinds AssocOp.bit_xor = caret ∷ []
op_kinds AssocOp.bit_and = and ∷ []
op_kinds AssocOp.bit_or = or ∷ []
op_kinds AssocOp.shift_left = lt ∷ lt ∷ []
op_kinds AssocOp.shift_right = gt ∷ gt ∷ []
op_kinds AssocOp.equal = eq ∷ eq ∷ []
op_kinds AssocOp.less = lt ∷ []
op_kinds AssocOp.less_equal = lt ∷ eq ∷ []
op_kinds AssocOp.not_equal = bang ∷ eq ∷ []
op_kinds AssocOp.greater = gt ∷ []
op_kinds AssocOp.greater_equal = gt ∷ eq ∷ []
op_kinds AssocOp.assign = eq ∷ []
op_kinds (AssocOp.assign_op op) = []

abbrev pub print_kinds : List TokenKind → List Tok → List Tok
print_kinds [] rest = rest
print_kinds (kind ∷ kinds) rest = tok kind "" ∷ print_kinds kinds rest

-- What may stand behind any operator
pub data Operand : Type 0 where
  blank name : Operand
  value : LiteralKind → ℕ → Operand

abbrev pub operand_kind : Operand → TokenKind
operand_kind blank = whitespace
operand_kind name = ident
operand_kind (value kind suffix_start) = literal kind suffix_start

-- `make_op` reads every operator but the assignments back from its tokens, if white space, a name or a
-- literal follows: the longer of `<` and `<<`, of `&` and `&&` and so on is taken only if it is there.
pub make_op-print :
    (op : AssocOp) (next : Operand) (text : String) (rest : List Tok)
    → is_assign_like op ≡ false
    → make_op (print_kinds (op_kinds op) (tok (operand_kind next) text ∷ rest))
      ≡ done (some op) (tok (operand_kind next) text ∷ rest)
unfolding make_op op_at op_kinds eat_if matches after_lt after_gt is_assign_like
make_op-print AssocOp.assign next text rest h = cc
make_op-print (AssocOp.assign_op op) next text rest h = cc
make_op-print op blank text rest h = refl
make_op-print op name text rest h = refl
make_op-print op (value kind suffix_start) text rest h = refl
