-- ===== src/Parser/Eat.antt =====
-- src/ast/parse.rs: the methods of `AstBuilder` that eat keywords, sequences and runs of tokens.
use Prim.Native.String.{String}
use text.Mathlib.Text.{◌==◌}
use enumc.Prelude.{ℕ, ◌+◌, Bool, true, false, List, [], ◌∷◌, if◌then◌else◌}
use enumc.Lexer.Token.{TokenKind, unknown, open_bracket}
use enumc.Lexer.Match.{TokenMatch, matches}
use enumc.Parser.Stream.{
  Tok, Parse, done, panic, pure, then_at, ◌>>=◌, ◌>>◌, curr_kind, input_curr, is_blank, eat_tkn,
  eat_if,
}

-- `eat_if_kw`, of a keyword's text
unfoldable pub eat_if_kw : String → Parse Bool
eat_if_kw kw toks = elim (kw == input_curr toks) [
  | true ↦ (eat_tkn >> pure true) toks
  | false ↦ done false toks
]

-- One blank
abbrev pub eat_blank : Parse (Unit {0})
eat_blank toks = elim (is_blank (curr_kind toks)) [ true ↦ eat_tkn toks | false ↦ done tt toks ]

unfoldable pub eat_seq_ignore_ws : List TokenMatch → Parse Bool
eat_seq_ignore_ws [] toks = done true toks
eat_seq_ignore_ws (kind ∷ iter) toks = then_at (eat_blank toks) (λ u.
    eat_if kind >>= (λ eaten. elim eaten [ true ↦ eat_seq_ignore_ws iter | false ↦ pure false ]))

unfoldable pub eat_until : TokenMatch → Parse (Unit {0})
eat_until pat [] = panic
eat_until pat (t ∷ tokens) =
    if matches pat t.kind then done tt (t ∷ tokens) else eat_until pat tokens

unfoldable pub eat_while : TokenMatch → Parse (Unit {0})
eat_while pat [] = panic
eat_while pat (t ∷ tokens) =
    if matches pat t.kind then eat_while pat tokens else done tt (t ∷ tokens)

-- `count_eaten_seq`, from a count on
unfoldable pub count_from : ℕ → TokenMatch → Parse ℕ
count_from count pat [] = panic
count_from count pat (t ∷ tokens) =
    if matches pat t.kind then count_from (count + 1) pat tokens else done count (t ∷ tokens)

unfoldable pub count_eaten_seq : TokenMatch → Parse ℕ
count_eaten_seq pat = count_from 0 pat

-- `peek`, or `Unknown`
abbrev pub peek_kind : List Tok → TokenKind
peek_kind [] = unknown
peek_kind (t ∷ []) = unknown
peek_kind (t ∷ next ∷ tokens) = next.kind

-- `check_next`
unfoldable pub check_next : TokenMatch → List Tok → Bool
check_next pat [] = false
check_next pat (t ∷ []) = false
check_next pat (t ∷ next ∷ tokens) = matches pat next.kind

abbrev pub eat_attr_at : TokenKind → Parse (Unit {0})
eat_attr_at open_bracket toks = (eat_until TokenMatch.close_bracket >> eat_tkn) toks
eat_attr_at kind toks = done tt toks

unfoldable pub eat_attr : Parse (Unit {0})
eat_attr toks = eat_attr_at (peek_kind toks) toks
