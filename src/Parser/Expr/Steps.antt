-- ===== src/Parser/Expr/Steps.antt =====
-- src/ast/parse.rs: the steps of the parser of expressions on written operands.
use Prim.Native.String.{String}
use enumc.Prelude.{ℕ, suc, ◌≡◌, refl, ap, ◌∙◌, Bool, true, false, ◌||◌, List, [], ◌∷◌, ◌++◌}
use enumc.Lexer.Token.{TokenKind, ident, open_paren}
use enumc.Lexer.Match.{TokenMatch, matches}
use enumc.Parser.Stream.{
  SegStart, seg_next, seg_loop, seg_start, Tok, Parse, done, then_at, ◌>>◌, pure, is_blank, eat_if,
  eat_whitespace, zip_all, cmp_seq, without_blanks, cmp_seq_ignore_ws, eat_seq, make_ident, retain,
  make_seg, colons,
}
use enumc.Parser.Types.{make_path, numbers}
use enumc.Parser.Types.Print.{tok, kept}
use enumc.Parser.Types.Segs.{not-true}
use enumc.Parser.Eat.{check_next}
use enumc.Parser.Expr.{Expr}
use enumc.Parser.Expr.Left.{
  path_start, start_of, just_ident, func_call, is_func_call, is_struct, is_struct_in_match, behind,
  behind_at, make_path_expr, make_lh_expr, make_call,
}
use enumc.Parser.Expr.Chain.{gap, is_stop}

-- What a token is not that does not go on with a path
abbrev pub Plain : TokenKind → Type 0
Plain k =
    (is_blank k ≡ false)
    × (matches TokenMatch.ident k ≡ false)
    × (matches TokenMatch.colon k ≡ false)

-- What a token is not that does not go on with an operand
abbrev pub Stop : TokenKind → Type 0
Stop k =
    (matches TokenMatch.dot k ≡ false)
    × (matches TokenMatch.open_paren k ≡ false)
    × (matches TokenMatch.open_bracket k ≡ false)
    × (matches TokenMatch.open_brace k ≡ false)

pub is_stop-Plain : (k : TokenKind) → is_stop k ≡ true → Plain k
unfolding matches
is_stop-Plain TokenKind.whitespace h = cc
is_stop-Plain (TokenKind.line_comment doc_style) h = cc
is_stop-Plain (TokenKind.block_comment doc_style terminated) h = cc
is_stop-Plain TokenKind.ident h = cc
is_stop-Plain TokenKind.colon h = cc
is_stop-Plain _ h = (refl, refl, refl)

pub is_stop-Stop : (k : TokenKind) → is_stop k ≡ true → Stop k
unfolding matches
is_stop-Stop TokenKind.dot h = cc
is_stop-Stop TokenKind.open_paren h = cc
is_stop-Stop TokenKind.open_bracket h = cc
is_stop-Stop TokenKind.open_brace h = cc
is_stop-Stop _ h = (refl, refl, refl, refl)

pub eat_whitespace-gap :
    (b : Bool) (t : Tok) (rest : List Tok)
    → is_blank t.kind ≡ false
    → eat_whitespace (gap b (t ∷ rest)) ≡ done tt (t ∷ rest)
unfolding eat_whitespace
eat_whitespace-gap true t rest h = rw h refl
eat_whitespace-gap false t rest h = rw h refl

seg_start-name :
    (text : String) (b : Bool) (t : Tok) (rest : List Tok)
    → Plain t.kind
    → seg_start (tok ident text ∷ gap b (t ∷ rest)) ≡ SegStart.eat_colons
unfolding seg_start cmp_seq_ignore_ws without_blanks zip_all matches
seg_start-name text true t rest (nb, ni, nc) = rw nb (rw nc refl)
seg_start-name text false t rest (nb, ni, nc) = rw nb (rw nc refl)

make_ident-name :
    (text : String) (b : Bool) (t : Tok) (rest : List Tok)
    → is_blank t.kind ≡ false
    → make_ident (tok ident text ∷ gap b (t ∷ rest)) ≡ done text (t ∷ rest)
unfolding make_ident eat_if matches eat_whitespace
make_ident-name text true t rest h = rw h refl
make_ident-name text false t rest h = rw h refl

cmp_seq-Plain :
    (t : Tok) (rest : List Tok)
    → Plain t.kind
    → (cmp_seq colons (t ∷ rest) || cmp_seq (TokenMatch.ident ∷ []) (t ∷ rest)) ≡ false
unfolding cmp_seq
cmp_seq-Plain t rest (nb, ni, nc) = rw nc (rw ni refl)

seg_next-Plain :
    (again : List String → Parse (List String)) (ids : List String) (t : Tok) (rest : List Tok)
    → Plain t.kind
    → seg_next again ids (t ∷ rest) ≡ done ids (t ∷ rest)
seg_next-Plain again ids t rest h = rw (seg_next, cmp_seq-Plain t rest h) refl

seg_loop-name :
    (fuel : ℕ) (text : String) (b : Bool) (t : Tok) (rest : List Tok)
    → Plain t.kind
    → seg_loop (suc fuel) [] (tok ident text ∷ gap b (t ∷ rest)) ≡ done (text ∷ []) (t ∷ rest)
unfolding seg_loop eat_seq eat_if matches
seg_loop-name fuel text b t rest h =
    rw (seg_loop, seg_start-name text b t rest h)
      (ap (λ p. then_at p (λ id. seg_next (seg_loop fuel) ([] ++ id ∷ [])))
          (make_ident-name text b t rest h.0)
        ∙ seg_next-Plain (seg_loop fuel) (text ∷ []) t rest h)

-- A path of one name
pub make_seg-name :
    (fuel : ℕ) (text : String) (b : Bool) (t : Tok) (rest : List Tok)
    → kept text ≡ true
    → Plain t.kind
    → make_seg (suc fuel) (tok ident text ∷ gap b (t ∷ rest)) ≡ done (text ∷ []) (t ∷ rest)
unfolding make_seg retain
make_seg-name fuel text b t rest k h =
    ap (λ p. then_at p (λ ids. eat_whitespace >> pure (retain ids)))
      (seg_loop-name fuel text b t rest h)
    ∙ ap (λ p. then_at p (λ u. pure (retain (text ∷ [])))) (eat_whitespace-gap false t rest h.0)
    ∙ rw (not-true _ k) refl

start_of-name :
    (text : String) (b : Bool) (t : Tok) (rest : List Tok)
    → matches TokenMatch.dot t.kind ≡ false
    → matches TokenMatch.open_bracket t.kind ≡ false
    → start_of (tok ident text ∷ gap b (t ∷ rest)) ≡ path_start
unfolding start_of check_next matches
start_of-name text true t rest nd nb = refl
start_of-name text false t rest nd nb = rw (start_of, nd) (rw (start_of, nb) refl)

is_func_call-Stop :
    (t : Tok) (rest : List Tok) → Plain t.kind → Stop t.kind → is_func_call (t ∷ rest) ≡ false
unfolding is_func_call cmp_seq_ignore_ws
is_func_call-Stop t rest (nb, ni, nc) (nd, np, nk, ne) = rw nb (rw nc (rw np refl))

is_struct-Stop :
    (in_match : Bool) (t : Tok) (rest : List Tok)
    → Plain t.kind
    → Stop t.kind
    → is_struct in_match (t ∷ rest) ≡ false
unfolding is_struct is_struct_in_match cmp_seq_ignore_ws
is_struct-Stop true t rest (nb, ni, nc) (nd, np, nk, ne) = rw nb (rw ni refl)
is_struct-Stop false t rest (nb, ni, nc) (nd, np, nk, ne) = rw ne refl

behind-Stop :
    (in_match : Bool) (seg : ℕ) (t : Tok) (rest : List Tok)
    → Plain t.kind
    → Stop t.kind
    → behind in_match (seg ∷ []) (t ∷ rest) ≡ just_ident seg
unfolding behind
behind-Stop in_match seg t rest p s =
    rw (behind, is_func_call-Stop t rest p s) (rw (behind, is_struct-Stop in_match t rest p s) refl)

behind-call :
    (in_match : Bool) (seg : ℕ) (rest : List Tok)
    → behind in_match (seg ∷ []) (tok open_paren "(" ∷ rest) ≡ func_call
unfolding behind is_func_call cmp_seq_ignore_ws matches
behind-call in_match seg rest = refl

module _ (number_of : String → ℕ) (in_match : Bool) where
  make_path-name :
      (fuel : ℕ) (text : String) (b : Bool) (t : Tok) (rest : List Tok)
      → kept text ≡ true
      → Plain t.kind
      → make_path number_of (suc fuel) (tok ident text ∷ gap b (t ∷ rest))
        ≡ done (number_of text ∷ []) (t ∷ rest)
  unfolding make_path
  make_path-name fuel text b t rest k h =
      ap (λ p. then_at p (λ segs. pure (numbers number_of segs)))
        (make_seg-name fuel text b t rest k h)

  -- A name in front of a token that does not go on with it
  pub make_lh_expr-name :
      (fuel : ℕ) (rec : Parse Expr) (text : String) (b : Bool) (t : Tok) (rest : List Tok)
      → kept text ≡ true
      → is_stop t.kind ≡ true
      → make_lh_expr number_of in_match (suc (suc fuel)) rec (tok ident text ∷ gap b (t ∷ rest))
        ≡ done (Expr.ident (number_of text)) (t ∷ rest)
  unfolding make_lh_expr make_path_expr eat_whitespace
  make_lh_expr-name fuel rec text b t rest k h =
      let p = is_stop-Plain t.kind h in
      let s = is_stop-Stop t.kind h in
      rw (make_lh_expr, start_of-name text b t rest s.0 s.2)
        (ap
            (λ p. then_at p (λ path toks.
              behind_at number_of in_match (suc fuel) rec path (behind in_match path toks) toks))
            (make_path-name fuel text b t rest k p)
          ∙ rw (behind-Stop in_match (number_of text) t rest p s) refl)

  -- A name in front of `(`
  pub make_lh_expr-call :
      (fuel : ℕ) (rec : Parse Expr) (text : String) (rest : List Tok)
      → kept text ≡ true
      → make_lh_expr number_of in_match
          (suc (suc fuel))
          rec
          (tok ident text ∷ tok open_paren "(" ∷ rest)
        ≡ make_call number_of in_match
            (suc fuel)
            rec
            (number_of text ∷ [])
            (tok open_paren "(" ∷ rest)
  unfolding make_lh_expr make_path_expr eat_whitespace start_of check_next matches
  make_lh_expr-call fuel rec text rest k =
      ap
        (λ p. then_at p (λ path toks.
          behind_at number_of in_match (suc fuel) rec path (behind in_match path toks) toks))
        (make_path-name fuel text false (tok open_paren "(") rest k (refl, refl, refl))
      ∙ rw (behind-call in_match (number_of text) rest) refl
