-- ===== src/Parser/Expr/Loop.antt =====
-- src/ast/parse.rs: the loop of `make_expr` over a written chain, if the operands are read.
use Prim.Native.String.{String}
use enumc.Prelude.{ℕ, suc, ◌≡◌, refl, sym, ap, ◌∙◌, Bool, true, false, List, [], ◌∷◌, none, some}
use enumc.Lexer.Token.{TokenKind}
use enumc.Lexer.Match.{TokenMatch, matches}
use enumc.Parser.Ops.{AssocOp, is_assign_like}
use enumc.Parser.Yard.{reduce}
use enumc.Parser.Yard.Stack.{
  Pending, AllBinary, opstack, output, collapse, push, shift-push, reduce-collapse,
}
use enumc.Parser.Stream.{
  Tok, Parse, done, then_at, ◌>>=◌, ◌>>◌, pure, is_blank, curr_kind, eat_whitespace,
}
use enumc.Parser.Types.Print.{space}
use enumc.Parser.MakeOp.{make_op, op_at, op_kinds, print_kinds, blank, make_op-print}
use enumc.Parser.Expr.{Expr}
use enumc.Parser.Expr.Tree.{Operand, leaf, tree_expr, yard_result, yard_step, shifted, yard_loop}
use enumc.Parser.Expr.Chain.{
  Term, name, number, group, apply, Chain, last, link, gap, print_term, print_chain, meant, is_stop,
  is_end,
}
use enumc.Parser.Expr.Steps.{is_stop-Plain, eat_whitespace-gap}

pub eat_whitespace-term :
    (term : Term) (rest : List Tok)
    → eat_whitespace (print_term term rest) ≡ done tt (print_term term rest)
unfolding eat_whitespace print_term
eat_whitespace-term (name text) rest = refl
eat_whitespace-term (number text) rest = refl
eat_whitespace-term (group chain) rest = refl
eat_whitespace-term (apply text args) rest = refl

pub eat_whitespace-chain :
    (chain : Chain) (rest : List Tok)
    → eat_whitespace (print_chain chain rest) ≡ done tt (print_chain chain rest)
unfolding print_chain
eat_whitespace-chain (last term) rest = eat_whitespace-term term rest
eat_whitespace-chain (link term op chain) rest =
    eat_whitespace-term term (space ∷ print_kinds (op_kinds op) (space ∷ print_chain chain rest))

pub term-semi :
    (term : Term) (rest : List Tok)
    → matches TokenMatch.semi (curr_kind (print_term term rest)) ≡ false
unfolding matches print_term
term-semi (name text) rest = refl
term-semi (number text) rest = refl
term-semi (group chain) rest = refl
term-semi (apply text args) rest = refl

pub is_end-stop : (k : TokenKind) → is_end k ≡ true → is_stop k ≡ true
is_end-stop TokenKind.comma h = refl
is_end-stop TokenKind.semi h = refl
is_end-stop TokenKind.close_paren h = refl
is_end-stop TokenKind.close_bracket h = refl
is_end-stop TokenKind.close_brace h = refl
is_end-stop _ h = cc

op_at-end : (k : TokenKind) (toks : List Tok) → is_end k ≡ true → op_at k toks ≡ done none toks
unfolding op_at
op_at-end TokenKind.comma toks h = refl
op_at-end TokenKind.semi toks h = refl
op_at-end TokenKind.close_paren toks h = refl
op_at-end TokenKind.close_bracket toks h = refl
op_at-end TokenKind.close_brace toks h = refl
op_at-end _ toks h = cc

pub make_op-end :
    (t : Tok) (rest : List Tok) → is_end t.kind ≡ true → make_op (t ∷ rest) ≡ done none (t ∷ rest)
unfolding make_op
make_op-end t rest h = op_at-end t.kind (t ∷ rest) h

-- The first token of an operator
pub op_kinds-head :
    (op : AssocOp) (rest : List Tok)
    → is_assign_like op ≡ false
    → (t : Tok) × (toks : List Tok) × (print_kinds (op_kinds op) rest ≡ t ∷ toks)
      × (is_stop t.kind ≡ true)
unfolding op_kinds is_assign_like
op_kinds-head AssocOp.assign rest h = cc
op_kinds-head (AssocOp.assign_op op) rest h = cc
op_kinds-head op rest h = (_, _, refl, refl)

module _ (number_of : String → ℕ) where
  -- A reader of operands reads what is meant by a term, and the operator behind it.
  unfoldable pub ReadsTerm : Parse Operand → Term → Type 0
  ReadsTerm advance term =
      (b : Bool) (t : Tok) (rest : List Tok)
      → is_stop t.kind ≡ true
      → advance (print_term term (gap b (t ∷ rest)))
        ≡ then_at (make_op (t ∷ rest)) (λ op. pure (meant number_of term, op))

  advance-op :
      (advance : Parse Operand) (term : Term) (op : AssocOp) (rest : List Tok)
      → ReadsTerm advance term
      → is_assign_like op ≡ false
      → advance (print_term term (space ∷ print_kinds (op_kinds op) (space ∷ rest)))
        ≡ done (meant number_of term, some op) (space ∷ rest)
  unfolding ReadsTerm
  advance-op advance term op rest reads h =
      let (t, toks, e, s) = op_kinds-head op (space ∷ rest) h in
      ap (λ l. advance (print_term term (space ∷ l))) e
      ∙ reads true t toks s
      ∙ ap (λ l. then_at (make_op l) (λ op. pure (meant number_of term, op))) (sym e)
      ∙ ap (λ p. then_at p (λ op. pure (meant number_of term, op)))
          (make_op-print op blank " " rest h)

  advance-end :
      (advance : Parse Operand) (term : Term) (t : Tok) (rest : List Tok)
      → ReadsTerm advance term
      → is_end t.kind ≡ true
      → advance (print_term term (t ∷ rest)) ≡ done (meant number_of term, none) (t ∷ rest)
  unfolding ReadsTerm
  advance-end advance term t rest reads h =
      reads false t rest (is_end-stop t.kind h)
      ∙ ap (λ p. then_at p (λ op. pure (meant number_of term, op))) (make_op-end t rest h)

  -- The last round of the loop
  pub yard_loop-last :
      (fuel : ℕ) (advance : Parse Operand) (term : Term) (pending : Pending Expr) (t : Tok)
      (rest : List Tok)
      → ReadsTerm advance term
      → AllBinary pending
      → is_end t.kind ≡ true
      → yard_loop (suc fuel) advance (opstack pending) (output pending) (print_term term (t ∷ rest))
        ≡ done (tree_expr (collapse pending (leaf (meant number_of term)))) (t ∷ rest)
  unfolding yard_loop
  yard_loop-last fuel advance term pending t rest reads all h =
      let step = yard_step (yard_loop fuel advance) (opstack pending) (output pending) in
      rw (yard_loop, term-semi term (t ∷ rest))
        (ap (λ p. then_at p (λ u. advance >>= (λ item. eat_whitespace >> step item)))
            (eat_whitespace-term term (t ∷ rest))
          ∙ ap (λ p. then_at p (λ item. eat_whitespace >> step item))
              (advance-end advance term t rest reads h)
          ∙ ap (λ p. then_at p (λ u. step (meant number_of term, none)))
              (eat_whitespace-gap false t rest (is_stop-Plain t.kind (is_end-stop t.kind h)).0)
          ∙ ap (λ o. yard_result o (t ∷ rest))
              (reduce-collapse pending (leaf (meant number_of term)) all))

  -- A round at an operand with an operator behind it
  pub yard_loop-link :
      (fuel : ℕ) (advance : Parse Operand) (term : Term) (op : AssocOp) (chain : Chain)
      (pending : Pending Expr) (rest : List Tok)
      → ReadsTerm advance term
      → AllBinary pending
      → is_assign_like op ≡ false
      → yard_loop
          (suc fuel)
          advance
          (opstack pending)
          (output pending)
          (print_chain (link term op chain) rest)
        ≡ yard_loop fuel advance
            (opstack (push pending (leaf (meant number_of term)) op))
            (output (push pending (leaf (meant number_of term)) op))
            (print_chain chain rest)
  unfolding yard_loop print_chain eat_whitespace
  yard_loop-link fuel advance term op chain pending rest reads all h =
      let step = yard_step (yard_loop fuel advance) (opstack pending) (output pending) in
      let toks = print_chain chain rest in
      rw (yard_loop, term-semi term (space ∷ print_kinds (op_kinds op) (space ∷ toks)))
        (ap (λ p. then_at p (λ u. advance >>= (λ item. eat_whitespace >> step item)))
            (eat_whitespace-term term (space ∷ print_kinds (op_kinds op) (space ∷ toks)))
          ∙ ap (λ p. then_at p (λ item. eat_whitespace >> step item))
              (advance-op advance term op toks reads h)
          ∙ ap (λ p. then_at p (λ u. step (meant number_of term, some op)))
              (eat_whitespace-chain chain rest)
          ∙ ap (λ s. shifted (yard_loop fuel advance) s toks)
              (shift-push pending (leaf (meant number_of term)) op all))

  -- One operand that nothing follows but `t`, where `toks` is that behind blanks
  pub yard_loop-only :
      (fuel : ℕ) (advance : Parse Operand) (term : Term) (toks : List Tok) (t : Tok)
      (rest : List Tok)
      → advance (print_term term toks) ≡ done (meant number_of term, none) (t ∷ rest)
      → is_blank t.kind ≡ false
      → yard_loop (suc fuel) advance [] [] (print_term term toks)
        ≡ done (meant number_of term) (t ∷ rest)
  unfolding yard_loop reduce tree_expr
  yard_loop-only fuel advance term toks t rest h nb =
      let step = yard_step (yard_loop fuel advance) [] [] in
      rw (yard_loop, term-semi term toks)
        (ap (λ p. then_at p (λ u. advance >>= (λ item. eat_whitespace >> step item)))
            (eat_whitespace-term term toks)
          ∙ ap (λ p. then_at p (λ item. eat_whitespace >> step item)) h
          ∙ ap (λ p. then_at p (λ u. step (meant number_of term, none)))
              (eat_whitespace-gap false t rest nb))
