-- ===== src/Lexer/Match.antt =====
-- src/ast/lex.rs: `TokenMatch`, the patterns by which the parser asks for a token.
use enumc.Prelude.{Bool, true, false, Option, none, some, ◌≡◌, ◌↔◌, refl}
use enumc.Lexer.Token.{TokenKind}

pub data TokenMatch : Type 0 where
  line_comment block_comment whitespace ident literal : TokenMatch
  semi comma dot open_paren close_paren open_brace close_brace open_bracket : TokenMatch
  close_bracket at pound tilde question colon dollar eq bang lt gt minus and or : TokenMatch
  plus star slash caret percent unknown : TokenMatch

-- `PartialEq<TokenKind> for TokenMatch`
unfoldable pub matches : TokenMatch → TokenKind → Bool
matches TokenMatch.line_comment (TokenKind.line_comment doc_style) = true
matches TokenMatch.block_comment (TokenKind.block_comment doc_style terminated) = true
matches TokenMatch.whitespace TokenKind.whitespace = true
matches TokenMatch.ident TokenKind.ident = true
matches TokenMatch.literal (TokenKind.literal kind suffix_start) = true
matches TokenMatch.semi TokenKind.semi = true
matches TokenMatch.comma TokenKind.comma = true
matches TokenMatch.dot TokenKind.dot = true
matches TokenMatch.open_paren TokenKind.open_paren = true
matches TokenMatch.close_paren TokenKind.close_paren = true
matches TokenMatch.open_brace TokenKind.open_brace = true
matches TokenMatch.close_brace TokenKind.close_brace = true
matches TokenMatch.open_bracket TokenKind.open_bracket = true
matches TokenMatch.close_bracket TokenKind.close_bracket = true
matches TokenMatch.at TokenKind.at = true
matches TokenMatch.pound TokenKind.pound = true
matches TokenMatch.tilde TokenKind.tilde = true
matches TokenMatch.question TokenKind.question = true
matches TokenMatch.colon TokenKind.colon = true
matches TokenMatch.dollar TokenKind.dollar = true
matches TokenMatch.eq TokenKind.eq = true
matches TokenMatch.bang TokenKind.bang = true
matches TokenMatch.lt TokenKind.lt = true
matches TokenMatch.gt TokenKind.gt = true
matches TokenMatch.minus TokenKind.minus = true
matches TokenMatch.and TokenKind.and = true
matches TokenMatch.or TokenKind.or = true
matches TokenMatch.plus TokenKind.plus = true
matches TokenMatch.star TokenKind.star = true
matches TokenMatch.slash TokenKind.slash = true
matches TokenMatch.caret TokenKind.caret = true
matches TokenMatch.percent TokenKind.percent = true
matches TokenMatch.unknown TokenKind.unknown = true
matches _ _ = false

-- The pattern of a kind, by its name alone.
abbrev pub pattern_of : TokenKind → Option TokenMatch
pattern_of (TokenKind.line_comment doc_style) = some TokenMatch.line_comment
pattern_of (TokenKind.block_comment doc_style terminated) = some TokenMatch.block_comment
pattern_of TokenKind.whitespace = some TokenMatch.whitespace
pattern_of TokenKind.ident = some TokenMatch.ident
pattern_of (TokenKind.literal kind suffix_start) = some TokenMatch.literal
pattern_of TokenKind.semi = some TokenMatch.semi
pattern_of TokenKind.comma = some TokenMatch.comma
pattern_of TokenKind.dot = some TokenMatch.dot
pattern_of TokenKind.open_paren = some TokenMatch.open_paren
pattern_of TokenKind.close_paren = some TokenMatch.close_paren
pattern_of TokenKind.open_brace = some TokenMatch.open_brace
pattern_of TokenKind.close_brace = some TokenMatch.close_brace
pattern_of TokenKind.open_bracket = some TokenMatch.open_bracket
pattern_of TokenKind.close_bracket = some TokenMatch.close_bracket
pattern_of TokenKind.at = some TokenMatch.at
pattern_of TokenKind.pound = some TokenMatch.pound
pattern_of TokenKind.tilde = some TokenMatch.tilde
pattern_of TokenKind.question = some TokenMatch.question
pattern_of TokenKind.colon = some TokenMatch.colon
pattern_of TokenKind.dollar = some TokenMatch.dollar
pattern_of TokenKind.eq = some TokenMatch.eq
pattern_of TokenKind.bang = some TokenMatch.bang
pattern_of TokenKind.lt = some TokenMatch.lt
pattern_of TokenKind.gt = some TokenMatch.gt
pattern_of TokenKind.minus = some TokenMatch.minus
pattern_of TokenKind.and = some TokenMatch.and
pattern_of TokenKind.or = some TokenMatch.or
pattern_of TokenKind.plus = some TokenMatch.plus
pattern_of TokenKind.star = some TokenMatch.star
pattern_of TokenKind.slash = some TokenMatch.slash
pattern_of TokenKind.caret = some TokenMatch.caret
pattern_of TokenKind.percent = some TokenMatch.percent
pattern_of TokenKind.unknown = some TokenMatch.unknown
pattern_of TokenKind.eof = none

matches-pattern_of : (m : TokenMatch) (k : TokenKind) → matches m k ≡ true → pattern_of k ≡ some m
unfolding matches
matches-pattern_of TokenMatch.line_comment (TokenKind.line_comment doc_style) h = refl
matches-pattern_of TokenMatch.block_comment (TokenKind.block_comment doc_style terminated) h = refl
matches-pattern_of TokenMatch.whitespace TokenKind.whitespace h = refl
matches-pattern_of TokenMatch.ident TokenKind.ident h = refl
matches-pattern_of TokenMatch.literal (TokenKind.literal kind suffix_start) h = refl
matches-pattern_of TokenMatch.semi TokenKind.semi h = refl
matches-pattern_of TokenMatch.comma TokenKind.comma h = refl
matches-pattern_of TokenMatch.dot TokenKind.dot h = refl
matches-pattern_of TokenMatch.open_paren TokenKind.open_paren h = refl
matches-pattern_of TokenMatch.close_paren TokenKind.close_paren h = refl
matches-pattern_of TokenMatch.open_brace TokenKind.open_brace h = refl
matches-pattern_of TokenMatch.close_brace TokenKind.close_brace h = refl
matches-pattern_of TokenMatch.open_bracket TokenKind.open_bracket h = refl
matches-pattern_of TokenMatch.close_bracket TokenKind.close_bracket h = refl
matches-pattern_of TokenMatch.at TokenKind.at h = refl
matches-pattern_of TokenMatch.pound TokenKind.pound h = refl
matches-pattern_of TokenMatch.tilde TokenKind.tilde h = refl
matches-pattern_of TokenMatch.question TokenKind.question h = refl
matches-pattern_of TokenMatch.colon TokenKind.colon h = refl
matches-pattern_of TokenMatch.dollar TokenKind.dollar h = refl
matches-pattern_of TokenMatch.eq TokenKind.eq h = refl
matches-pattern_of TokenMatch.bang TokenKind.bang h = refl
matches-pattern_of TokenMatch.lt TokenKind.lt h = refl
matches-pattern_of TokenMatch.gt TokenKind.gt h = refl
matches-pattern_of TokenMatch.minus TokenKind.minus h = refl
matches-pattern_of TokenMatch.and TokenKind.and h = refl
matches-pattern_of TokenMatch.or TokenKind.or h = refl
matches-pattern_of TokenMatch.plus TokenKind.plus h = refl
matches-pattern_of TokenMatch.star TokenKind.star h = refl
matches-pattern_of TokenMatch.slash TokenKind.slash h = refl
matches-pattern_of TokenMatch.caret TokenKind.caret h = refl
matches-pattern_of TokenMatch.percent TokenKind.percent h = refl
matches-pattern_of TokenMatch.unknown TokenKind.unknown h = refl
matches-pattern_of _ _ h = cc

pattern_of-matches : (m : TokenMatch) (k : TokenKind) → pattern_of k ≡ some m → matches m k ≡ true
unfolding matches
pattern_of-matches TokenMatch.line_comment (TokenKind.line_comment doc_style) h = refl
pattern_of-matches TokenMatch.block_comment (TokenKind.block_comment doc_style terminated) h = refl
pattern_of-matches TokenMatch.whitespace TokenKind.whitespace h = refl
pattern_of-matches TokenMatch.ident TokenKind.ident h = refl
pattern_of-matches TokenMatch.literal (TokenKind.literal kind suffix_start) h = refl
pattern_of-matches TokenMatch.semi TokenKind.semi h = refl
pattern_of-matches TokenMatch.comma TokenKind.comma h = refl
pattern_of-matches TokenMatch.dot TokenKind.dot h = refl
pattern_of-matches TokenMatch.open_paren TokenKind.open_paren h = refl
pattern_of-matches TokenMatch.close_paren TokenKind.close_paren h = refl
pattern_of-matches TokenMatch.open_brace TokenKind.open_brace h = refl
pattern_of-matches TokenMatch.close_brace TokenKind.close_brace h = refl
pattern_of-matches TokenMatch.open_bracket TokenKind.open_bracket h = refl
pattern_of-matches TokenMatch.close_bracket TokenKind.close_bracket h = refl
pattern_of-matches TokenMatch.at TokenKind.at h = refl
pattern_of-matches TokenMatch.pound TokenKind.pound h = refl
pattern_of-matches TokenMatch.tilde TokenKind.tilde h = refl
pattern_of-matches TokenMatch.question TokenKind.question h = refl
pattern_of-matches TokenMatch.colon TokenKind.colon h = refl
pattern_of-matches TokenMatch.dollar TokenKind.dollar h = refl
pattern_of-matches TokenMatch.eq TokenKind.eq h = refl
pattern_of-matches TokenMatch.bang TokenKind.bang h = refl
pattern_of-matches TokenMatch.lt TokenKind.lt h = refl
pattern_of-matches TokenMatch.gt TokenKind.gt h = refl
pattern_of-matches TokenMatch.minus TokenKind.minus h = refl
pattern_of-matches TokenMatch.and TokenKind.and h = refl
pattern_of-matches TokenMatch.or TokenKind.or h = refl
pattern_of-matches TokenMatch.plus TokenKind.plus h = refl
pattern_of-matches TokenMatch.star TokenKind.star h = refl
pattern_of-matches TokenMatch.slash TokenKind.slash h = refl
pattern_of-matches TokenMatch.caret TokenKind.caret h = refl
pattern_of-matches TokenMatch.percent TokenKind.percent h = refl
pattern_of-matches TokenMatch.unknown TokenKind.unknown h = refl
pattern_of-matches _ _ h = cc

-- A pattern fits exactly the tokens of its own kind, whatever else the tokens hold, and none fits the
-- end of the file.
pub matches_iff : (m : TokenMatch) (k : TokenKind) → (matches m k ≡ true) ↔ (pattern_of k ≡ some m)
matches_iff m k = (matches-pattern_of m k, pattern_of-matches m k)
