-- ===== src/Parser/Expr/NoArgs.antt =====
-- src/ast/parse.rs: which parentheses a call without arguments takes in `make_expr`.
use Prim.Native.String.{String}
use enumc.Prelude.{
  ℕ, suc, ◌≤◌, ◌≡◌, refl, sym, ap, ◌∙◌, Bool, true, false, List, [], ◌∷◌, Option, none, some, arith,
}
use enumc.Lexer.Token.{ident, open_paren, close_paren}
use enumc.Lexer.Match.{TokenMatch, matches}
use enumc.Parser.Ops.{AssocOp, is_assign_like}
use enumc.Parser.Yard.{reduce, shift}
use enumc.Parser.Yard.Stack.{run}
use enumc.Parser.Stream.{Tok, Parse, done, then_at, ◌>>=◌, ◌>>◌, pure, eat_if, eat_whitespace}
use enumc.Parser.Eat.{eat_seq_ignore_ws}
use enumc.Parser.Types.{is_keyword}
use enumc.Parser.Types.Args.{make_type_args}
use enumc.Parser.Types.Print.{tok, space, kept}
use enumc.Parser.MakeOp.{make_op, op_kinds, print_kinds, blank, make_op-print}
use enumc.Parser.Expr.{Expr, to_exprs}
use enumc.Parser.Expr.Lists.{make_arg_list}
use enumc.Parser.Expr.Left.{make_call}
use enumc.Parser.Expr.Tree.{
  Operand, leaf, tree_expr, yard_loop, yard_step, operand_at, advance_to_op, expr_at,
  make_operators, make_expr,
}
use enumc.Parser.Expr.Chain.{gap, Chain, print_chain, links, final, is_chain, is_end, fuel_of_chain}
use enumc.Parser.Expr.Steps.{is_stop-Plain, eat_whitespace-gap, make_lh_expr-call}
use enumc.Parser.Expr.Loop.{is_end-stop, make_op-end, op_kinds-head, eat_whitespace-chain}
use enumc.Parser.Expr.Terms.{advance}
use enumc.Parser.Expr.RoundTrip.{yard_loop-chain}

-- `f()` in front of `rest`
abbrev pub print_call : String → List Tok → List Tok
print_call text rest = tok ident text ∷ tok open_paren "(" ∷ tok close_paren ")" ∷ rest

-- ` op chain` in front of `rest`
abbrev pub print_op : AssocOp → Chain → List Tok → List Tok
print_op op chain rest = space ∷ print_kinds (op_kinds op) (space ∷ print_chain chain rest)

-- A closing parenthesis or none
abbrev closing : Bool → List Tok → List Tok
closing true rest = tok close_paren ")" ∷ rest
closing false rest = rest

-- White space and the operator behind an operand
operator-print :
    (e : Expr) (b : Bool) (op : AssocOp) (rest : List Tok)
    → is_assign_like op ≡ false
    → then_at {B = Operand}
        (eat_whitespace (gap b (print_kinds (op_kinds op) (space ∷ rest))))
        (λ u. make_op >>= (λ o. pure (e, o)))
      ≡ done (e, some op) (space ∷ rest)
operator-print e b op rest h =
    let (t, toks, eq, s) = op_kinds-head op (space ∷ rest) h in
    ap (λ l. then_at {B = Operand} (eat_whitespace (gap b l)) (λ u. make_op >>= (λ o. pure (e, o))))
      eq
    ∙ ap (λ p. then_at {B = Operand} p (λ u. make_op >>= (λ o. pure (e, o))))
        (eat_whitespace-gap b t toks (is_stop-Plain t.kind s).0)
    ∙ ap (λ l. then_at {B = Operand} (make_op l) (λ o. pure (e, o))) (sym eq)
    ∙ ap (λ p. then_at {B = Operand} p (λ o. pure (e, o))) (make_op-print op blank " " rest h)

module _ (number_of : String → ℕ) (parse_f64 : Bool → String → Option ℕ) (in_match : Bool) where
  abbrev pub called : String → Expr
  called text = Expr.call (number_of text ∷ []) (to_exprs []) []

  make_call-none :
      (fuel : ℕ) (rec : Parse Expr) (text : String) (closed : Bool) (op : AssocOp) (rest : List Tok)
      → is_assign_like op ≡ false
      → make_call number_of in_match (suc (suc fuel)) rec (number_of text ∷ []) (
          tok open_paren "("
          ∷ tok close_paren ")"
          ∷ closing closed (space ∷ print_kinds (op_kinds op) rest))
        ≡ done (called text) (gap closed (print_kinds (op_kinds op) rest))
  unfolding make_call make_type_args eat_seq_ignore_ws eat_if matches eat_whitespace make_arg_list
      op_kinds is_assign_like
  make_call-none fuel rec text true op rest h = refl
  make_call-none fuel rec text false AssocOp.assign rest h = cc
  make_call-none fuel rec text false (AssocOp.assign_op op) rest h = cc
  make_call-none fuel rec text false op rest h = refl

  -- The call takes a parenthesis behind it, if there is one.
  advance-call :
      (fuel : ℕ) (text : String) (closed : Bool) (op : AssocOp) (rest : List Tok)
      → kept text ≡ true
      → is_assign_like op ≡ false
      → advance number_of parse_f64 in_match
          (suc (suc (suc fuel)))
          (print_call text (closing closed (space ∷ print_kinds (op_kinds op) (space ∷ rest))))
        ≡ done (called text, some op) (space ∷ rest)
  unfolding advance_to_op operand_at
  advance-call fuel text closed op rest k h =
      ap (λ p. then_at p (λ e. eat_whitespace >> (make_op >>= (λ o. pure (e, o)))))
        (make_lh_expr-call number_of in_match (suc fuel)
            (make_expr number_of parse_f64 in_match (suc (suc (suc fuel)))) text
            (tok close_paren ")"
              ∷ closing closed (space ∷ print_kinds (op_kinds op) (space ∷ rest)))
            k
          ∙ make_call-none fuel (make_expr number_of parse_f64 in_match (suc (suc (suc fuel)))) text
              closed op (space ∷ rest) h)
      ∙ operator-print (called text) closed op rest h

  -- The expression of a call and a chain behind it
  abbrev pub call_chain : String → AssocOp → Chain → Expr
  call_chain text op chain =
      tree_expr
        (run (links number_of chain) ((leaf (called text), op) ∷ []) (leaf (final number_of chain)))

  make_expr-call_lem :
      (fuel : ℕ) (text : String) (rest : List Tok)
      → is_keyword text ≡ false
      → make_expr number_of parse_f64 in_match (suc fuel) (print_call text rest)
        ≡ yard_loop fuel (advance number_of parse_f64 in_match fuel) [] [] (print_call text rest)
  unfolding make_expr eat_whitespace expr_at make_operators
  make_expr-call_lem fuel text rest h = rw (make_operators, h) refl

  yard_loop-call :
      (rounds : ℕ) (reader : Parse Operand) (text : String) (e : Expr) (op : AssocOp)
      (chain : Chain) (toks rest : List Tok)
      → reader (print_call text toks) ≡ done (e, some op) (space ∷ print_chain chain rest)
      → is_assign_like op ≡ false
      → yard_loop (suc rounds) reader [] [] (print_call text toks)
        ≡ yard_loop rounds reader (op ∷ []) (leaf e ∷ []) (print_chain chain rest)
  unfolding yard_loop eat_whitespace matches shift
  yard_loop-call rounds reader text e op chain toks rest reads h =
      let step = yard_step (yard_loop rounds reader) [] [] in
      ap (λ p. then_at p (λ item. eat_whitespace >> step item)) reads
      ∙ ap (λ p. then_at p (λ u. step (e, some op))) (eat_whitespace-chain chain rest)

  -- The call and the chain behind it, whether or not a parenthesis stands between them
  make_expr-call_chain :
      (fuel : ℕ) (text : String) (closed : Bool) (op : AssocOp) (chain : Chain) (t : Tok)
      (rest : List Tok)
      → kept text ≡ true
      → is_keyword text ≡ false
      → is_assign_like op ≡ false
      → fuel_of_chain chain ≤ suc (suc (suc fuel))
      → is_chain chain ≡ true
      → is_end t.kind ≡ true
      → make_expr number_of parse_f64 in_match
          (suc (suc (suc (suc fuel))))
          (print_call text (closing closed (print_op op chain (t ∷ rest))))
        ≡ done (call_chain text op chain) (t ∷ rest)
  make_expr-call_chain fuel text closed op chain t rest k nk h le c e =
      make_expr-call_lem (suc (suc (suc fuel))) text (closing closed (print_op op chain (t ∷ rest)))
        nk
      ∙ yard_loop-call (suc (suc fuel))
          (advance number_of parse_f64 in_match (suc (suc (suc fuel)))) text (called text) op chain
          (closing closed (print_op op chain (t ∷ rest))) (t ∷ rest)
          (advance-call fuel text closed op (print_chain chain (t ∷ rest)) k h) h
      ∙ yard_loop-chain number_of parse_f64 in_match (suc (suc fuel)) (suc (suc (suc fuel))) chain
          ((leaf (called text), op) ∷ []) t rest le (omega arith) c (h, tt) e

  -- What is read in parentheses, up to a token that ends an expression and may be the parenthesis
  advance-parens :
      (fuel : ℕ) (closed : Bool) (x : Tok) (toks : List Tok) (e : Expr) (t : Tok) (rest : List Tok)
      → make_expr number_of parse_f64 in_match fuel (x ∷ toks) ≡ done e (closing closed (t ∷ rest))
      → is_end t.kind ≡ true
      → matches TokenMatch.close_paren t.kind ≡ false
      → advance number_of parse_f64 in_match fuel (tok open_paren "(" ∷ x ∷ toks)
        ≡ done (Expr.parens e, none) (t ∷ rest)
  unfolding advance_to_op operand_at eat_if matches eat_whitespace
  advance-parens fuel true x toks e t rest reads h np = rw reads (
      ap (λ p. then_at p (λ u. make_op >>= (λ op. pure (Expr.parens e, op))))
        (eat_whitespace-gap false t rest (is_stop-Plain t.kind (is_end-stop t.kind h)).0)
      ∙ ap (λ p. then_at p (λ op. pure (Expr.parens e, op))) (make_op-end t rest h))
  advance-parens fuel false x toks e t rest reads h np =
      let blank = eat_whitespace-gap false t rest (is_stop-Plain t.kind (is_end-stop t.kind h)).0 in
      rw reads (
        ap
          (λ p.
            then_at (then_at p (λ u. eat_if TokenMatch.close_paren >> pure (Expr.parens e)))
              (λ e. eat_whitespace >> (make_op >>= (λ op. pure (e, op)))))
          blank
        ∙ rw np (
            ap (λ p. then_at p (λ u. make_op >>= (λ op. pure (Expr.parens e, op)))) blank
            ∙ ap (λ p. then_at p (λ op. pure (Expr.parens e, op))) (make_op-end t rest h)))

  make_expr-parens :
      (fuel : ℕ) (toks : List Tok) (e : Expr) (t : Tok) (rest : List Tok)
      → advance number_of parse_f64 in_match (suc fuel) (tok open_paren "(" ∷ toks)
        ≡ done (Expr.parens e, none) (t ∷ rest)
      → is_end t.kind ≡ true
      → make_expr number_of parse_f64 in_match (suc (suc fuel)) (tok open_paren "(" ∷ toks)
        ≡ done (Expr.parens e) (t ∷ rest)
  unfolding make_expr eat_whitespace expr_at make_operators is_keyword yard_loop matches reduce
      tree_expr
  make_expr-parens fuel toks e t rest reads h =
      let step =
        yard_step (yard_loop fuel (advance number_of parse_f64 in_match (suc fuel))) [] [] in
      ap (λ p. then_at p (λ item. eat_whitespace >> step item)) reads
      ∙ ap (λ p. then_at p (λ u. step (Expr.parens e, none)))
          (eat_whitespace-gap false t rest (is_stop-Plain t.kind (is_end-stop t.kind h)).0)

  -- With enough fuel, a call without arguments in parentheses, `(f()) op chain`, is read as `(f() op chain)` is, if `f`
  -- is no keyword or white space: for every binary operator and every chain behind it, up to a token that ends an
  -- expression and is no `)`, the parentheses of the result are around the whole.
  pub make_expr-no_args :
      (fuel : ℕ) (text : String) (op : AssocOp) (chain : Chain) (t : Tok) (rest : List Tok)
      → kept text ≡ true
      → is_keyword text ≡ false
      → is_assign_like op ≡ false
      → fuel_of_chain chain ≤ suc (suc (suc fuel))
      → is_chain chain ≡ true
      → is_end t.kind ≡ true
      → matches TokenMatch.close_paren t.kind ≡ false
      → (make_expr number_of parse_f64 in_match (suc (suc (suc (suc (suc fuel))))) (
            tok open_paren "("
            ∷ print_call text (tok close_paren ")" ∷ print_op op chain (t ∷ rest)))
          ≡ done (Expr.parens (call_chain text op chain)) (t ∷ rest))
        × (make_expr number_of parse_f64 in_match (suc (suc (suc (suc (suc fuel))))) (
              tok open_paren "("
              ∷ print_call text (print_op op chain (tok close_paren ")" ∷ t ∷ rest)))
            ≡ done (Expr.parens (call_chain text op chain)) (t ∷ rest))
  make_expr-no_args fuel text op chain t rest k nk h le c e np = (
    make_expr-parens (suc (suc (suc fuel))) _ (call_chain text op chain) t rest
        (advance-parens (suc (suc (suc (suc fuel)))) false _ _ (call_chain text op chain) t rest
          (make_expr-call_chain fuel text true op chain t rest k nk h le c e) e np)
        e,
    make_expr-parens (suc (suc (suc fuel))) _ (call_chain text op chain) t rest
        (advance-parens (suc (suc (suc (suc fuel)))) true _ _ (call_chain text op chain) t rest
          (make_expr-call_chain fuel text false op chain (tok close_paren ")") (t ∷ rest) k nk h le
            c refl)
          e np)
        e,
  )
