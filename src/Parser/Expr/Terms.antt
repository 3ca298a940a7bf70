-- ===== src/Parser/Expr/Terms.antt =====
-- src/ast/parse.rs: how `make_expr` and its kin read each kind of written operand.
use Prim.Native.String.{String}
use mathlib.Core.List.{append_assoc}
use enumc.Prelude.{
  ℕ, zero, suc, ◌≤◌, ◌≡◌, refl, ap, ◌∙◌, Bool, true, false, List, [], ◌∷◌, ◌++◌, Option, arith,
}
use enumc.Lexer.Token.{comma, open_paren, close_paren}
use enumc.Lexer.Match.{TokenMatch, matches}
use enumc.Lir.Isize.{pos}
use enumc.Parser.Stream.{
  Tok, Parse, done, then_at, ◌>>=◌, ◌>>◌, pure, is_blank, eat_if, eat_whitespace,
}
use enumc.Parser.Eat.{eat_seq_ignore_ws}
use enumc.Parser.Types.Args.{make_type_args}
use enumc.Parser.Types.Print.{tok, space, is_some, kept}
use enumc.Parser.Types.Steps.{is_some-eq}
use enumc.Parser.MakeOp.{make_op}
use enumc.Parser.Literal.{parse_isize, make_literal, literal_at, literal_value, int}
use enumc.Parser.Expr.{Expr, to_exprs}
use enumc.Parser.Expr.Lists.{make_arg_list}
use enumc.Parser.Expr.Left.{make_call}
use enumc.Parser.Expr.Tree.{Operand, operand_at, advance_to_op, make_expr}
use enumc.Parser.Expr.Chain.{
  name, number, group, apply, Chain, last, link, Args, only, more, gap, print_term, print_chain,
  print_args, meant, meant_chain, meant_args, is_end,
}
use enumc.Parser.Expr.Steps.{
  is_stop-Plain, eat_whitespace-gap, make_lh_expr-name, make_lh_expr-call,
}
use enumc.Parser.Expr.Loop.{eat_whitespace-chain, ReadsTerm}

module _ (number_of : String → ℕ) (parse_f64 : Bool → String → Option ℕ) (in_match : Bool) where
  abbrev pub advance : ℕ → Parse Operand
  advance fuel =
      advance_to_op number_of parse_f64 in_match fuel (make_expr number_of parse_f64 in_match fuel)

  -- White space and an operator behind an operand that is read
  with_op-gap :
      (e : Expr) (b : Bool) (t : Tok) (rest : List Tok)
      → is_blank t.kind ≡ false
      → then_at {B = Operand}
          (done e (gap b (t ∷ rest)))
          (λ e. eat_whitespace >> (make_op >>= (λ op. pure (e, op))))
        ≡ then_at {B = Operand} (make_op (t ∷ rest)) (λ op. pure (e, op))
  with_op-gap e b t rest h =
      ap (λ p. then_at p (λ u. make_op >>= (λ op. pure (e, op)))) (eat_whitespace-gap b t rest h)

  pub ReadsTerm-name :
      (fuel : ℕ) (text : String)
      → 2 ≤ fuel
      → kept text ≡ true
      → ReadsTerm number_of (advance fuel) (name text)
  unfolding ReadsTerm advance_to_op operand_at print_term meant
  ReadsTerm-name zero text le k b t rest h = absurd (omega arith)
  ReadsTerm-name (suc zero) text le k b t rest h = absurd (omega arith)
  ReadsTerm-name (suc (suc fuel)) text le k b t rest h =
      ap (λ p. then_at p (λ e. eat_whitespace >> (make_op >>= (λ op. pure (e, op)))))
        (make_lh_expr-name number_of in_match fuel
          (make_expr number_of parse_f64 in_match (suc (suc fuel))) text b t rest k h)
      ∙ with_op-gap (Expr.ident (number_of text)) false t rest (is_stop-Plain t.kind h).0

  pub ReadsTerm-number :
      (fuel : ℕ) (text : String)
      → is_some (parse_isize text) ≡ true
      → ReadsTerm number_of (advance fuel) (number text)
  unfolding ReadsTerm advance_to_op operand_at print_term meant make_literal literal_at
      literal_value eat_if matches
  ReadsTerm-number fuel text k true t rest h =
      let (n, e) = is_some-eq (parse_isize text) k in
      rw e (with_op-gap (Expr.value (int (pos n))) true t rest (is_stop-Plain t.kind h).0)
  ReadsTerm-number fuel text k false t rest h =
      let (n, e) = is_some-eq (parse_isize text) k in
      rw e (with_op-gap (Expr.value (int (pos n))) false t rest (is_stop-Plain t.kind h).0)

  -- `make_expr` on some fuel reads a chain.
  unfoldable pub ReadsChain : ℕ → Chain → Type 0
  ReadsChain fuel chain =
      (t : Tok) (rest : List Tok)
      → is_end t.kind ≡ true
      → make_expr number_of parse_f64 in_match fuel (print_chain chain (t ∷ rest))
        ≡ done (meant_chain number_of chain) (t ∷ rest)

  eat_if-chain :
      (chain : Chain) (rest : List Tok)
      → eat_if TokenMatch.open_paren (tok open_paren "(" ∷ print_chain chain rest)
        ≡ done true (print_chain chain rest)
  unfolding eat_if matches print_chain print_term
  eat_if-chain (last (name text)) rest = refl
  eat_if-chain (last (number text)) rest = refl
  eat_if-chain (last (group chain)) rest = refl
  eat_if-chain (last (apply text args)) rest = refl
  eat_if-chain (link (name text) op chain) rest = refl
  eat_if-chain (link (number text) op chain) rest = refl
  eat_if-chain (link (group c) op chain) rest = refl
  eat_if-chain (link (apply text args) op chain) rest = refl

  -- A chain in parentheses, in front of any token that is no blank
  pub advance-group :
      (fuel : ℕ) (chain : Chain) (b : Bool) (t : Tok) (rest : List Tok)
      → ReadsChain fuel chain
      → is_blank t.kind ≡ false
      → advance fuel (print_term (group chain) (gap b (t ∷ rest)))
        ≡ then_at (make_op (t ∷ rest)) (λ op. pure (meant number_of (group chain), op))
  unfolding ReadsChain advance_to_op operand_at print_term meant eat_if matches eat_whitespace
  advance-group fuel chain true t rest reads h =
      let closed = tok close_paren ")" in
      rw (eat_if-chain chain (closed ∷ space ∷ t ∷ rest)) (
        rw (reads closed (space ∷ t ∷ rest) refl)
          (with_op-gap (Expr.parens (meant_chain number_of chain)) true t rest h))
  advance-group fuel chain false t rest reads h =
      let closed = tok close_paren ")" in
      rw (eat_if-chain chain (closed ∷ t ∷ rest)) (
        rw (reads closed (t ∷ rest) refl)
          (with_op-gap (Expr.parens (meant_chain number_of chain)) false t rest h))

  pub ReadsTerm-group :
      (fuel : ℕ) (chain : Chain)
      → ReadsChain fuel chain
      → ReadsTerm number_of (advance fuel) (group chain)
  unfolding ReadsTerm
  ReadsTerm-group fuel chain reads b t rest h =
      advance-group fuel chain b t rest reads (is_stop-Plain t.kind h).0

  eat_if-close :
      (chain : Chain) (rest : List Tok)
      → eat_if TokenMatch.close_paren (print_chain chain rest) ≡ done false (print_chain chain rest)
  unfolding eat_if matches print_chain print_term
  eat_if-close (last (name text)) rest = refl
  eat_if-close (last (number text)) rest = refl
  eat_if-close (last (group chain)) rest = refl
  eat_if-close (last (apply text args)) rest = refl
  eat_if-close (link (name text) op chain) rest = refl
  eat_if-close (link (number text) op chain) rest = refl
  eat_if-close (link (group c) op chain) rest = refl
  eat_if-close (link (apply text args) op chain) rest = refl

  eat_whitespace-args :
      (args : Args) (rest : List Tok)
      → eat_whitespace (print_args args rest) ≡ done tt (print_args args rest)
  unfolding print_args
  eat_whitespace-args (only chain) rest = eat_whitespace-chain chain rest
  eat_whitespace-args (more chain args) rest =
      eat_whitespace-chain chain (tok comma "," ∷ space ∷ print_args args rest)

  -- `make_arg_list` reads the arguments up to the parenthesis that closes them.
  unfoldable pub ReadsArgs : ℕ → ℕ → Args → Type 0
  ReadsArgs rounds fuel args =
      (es : List Expr) (rest : List Tok)
      → make_arg_list rounds (make_expr number_of parse_f64 in_match fuel) es
          (print_args args (tok close_paren ")" ∷ rest))
        ≡ done (es ++ meant_args number_of args) (tok close_paren ")" ∷ rest)

  pub ReadsArgs-only :
      (rounds fuel : ℕ) (chain : Chain)
      → ReadsChain fuel chain
      → ReadsArgs (suc rounds) fuel (only chain)
  unfolding ReadsArgs ReadsChain make_arg_list print_args meant_args eat_if matches eat_whitespace
  ReadsArgs-only rounds fuel chain reads es rest =
      let closed = tok close_paren ")" in
      rw (make_arg_list, eat_whitespace-chain chain (closed ∷ rest))
        (rw (eat_if-close chain (closed ∷ rest)) (rw (reads closed rest refl) refl))

  pub ReadsArgs-more :
      (rounds fuel : ℕ) (chain : Chain) (args : Args)
      → ReadsChain fuel chain
      → ReadsArgs rounds fuel args
      → ReadsArgs (suc rounds) fuel (more chain args)
  unfolding ReadsArgs ReadsChain make_arg_list print_args meant_args eat_if matches eat_whitespace
  ReadsArgs-more rounds fuel chain args reads all_read es rest =
      let toks = print_args args (tok close_paren ")" ∷ rest) in
      rw (make_arg_list, eat_whitespace-chain chain (tok comma "," ∷ space ∷ toks))
        (rw (eat_if-close chain (tok comma "," ∷ space ∷ toks)) (
          rw (reads (tok comma ",") (space ∷ toks) refl) (
            rw (eat_whitespace-args args (tok close_paren ")" ∷ rest)) (
              all_read (es ++ meant_chain number_of chain ∷ []) rest
              ∙ ap (λ l. done l (tok close_paren ")" ∷ rest))
                  (append_assoc es (meant_chain number_of chain ∷ [])
                    (meant_args number_of args))))))

  eat_if-args :
      (args : Args) (rest : List Tok)
      → eat_if TokenMatch.open_paren (tok open_paren "(" ∷ print_args args rest)
        ≡ done true (print_args args rest)
  unfolding print_args
  eat_if-args (only chain) rest = eat_if-chain chain rest
  eat_if-args (more chain args) rest =
      eat_if-chain chain (tok comma "," ∷ space ∷ print_args args rest)

  pub make_call-args :
      (rounds fuel : ℕ) (path : List ℕ) (args : Args) (b : Bool) (t : Tok) (rest : List Tok)
      → ReadsArgs rounds fuel args
      → make_call number_of in_match rounds
          (make_expr number_of parse_f64 in_match fuel)
          path
          (tok open_paren "(" ∷ print_args args (tok close_paren ")" ∷ gap b (t ∷ rest)))
        ≡ done (Expr.call path (to_exprs (meant_args number_of args)) []) (gap b (t ∷ rest))
  unfolding ReadsArgs make_call make_type_args eat_seq_ignore_ws eat_if matches eat_whitespace
  make_call-args rounds fuel path args true t rest reads =
      let toks = space ∷ t ∷ rest in
      rw (eat_if-args args (tok close_paren ")" ∷ toks)) (rw (reads [] toks) refl)
  make_call-args rounds fuel path args false t rest reads =
      let toks = t ∷ rest in
      rw (eat_if-args args (tok close_paren ")" ∷ toks)) (rw (reads [] toks) refl)

  pub ReadsTerm-apply :
      (fuel : ℕ) (text : String) (args : Args)
      → kept text ≡ true
      → ReadsArgs (suc fuel) (suc (suc fuel)) args
      → ReadsTerm number_of (advance (suc (suc fuel))) (apply text args)
  unfolding ReadsTerm advance_to_op operand_at print_term meant
  ReadsTerm-apply fuel text args k reads b t rest h =
      let toks = print_args args (tok close_paren ")" ∷ gap b (t ∷ rest)) in
      ap (λ p. then_at p (λ e. eat_whitespace >> (make_op >>= (λ op. pure (e, op)))))
        (make_lh_expr-call number_of in_match fuel
            (make_expr number_of parse_f64 in_match (suc (suc fuel))) text toks k
          ∙ make_call-args (suc fuel) (suc (suc fuel)) (number_of text ∷ []) args b t rest reads)
      ∙ with_op-gap (Expr.call (number_of text ∷ []) (to_exprs (meant_args number_of args)) []) b t
          rest (is_stop-Plain t.kind h).0
