-- ===== src/Parser/Expr/RoundTrip.antt =====
-- src/ast/parse.rs: `make_expr` reads a written chain of operands and operators.
use Prim.Native.String.{String}
use enumc.Prelude.{
  ℕ, zero, suc, ◌≤◌, ◌≡◌, refl, ◌∙◌, Bool, true, false, not, ◌&&◌, List, [], ◌∷◌, Option, arith,
}
use enumc.Lexer.Token.{open_paren, close_paren, open_brace}
use enumc.Parser.Ops.{is_assign_like}
use enumc.Parser.Yard.Stack.{Pending, AllBinary, opstack, output, push, push-AllBinary, run}
use enumc.Parser.Stream.{Tok, done, eat_whitespace}
use enumc.Parser.Types.{is_keyword}
use enumc.Parser.Types.Print.{tok, space, is_some, kept}
use enumc.Parser.Types.Segs.{and-left, and-right, not-true}
use enumc.Parser.MakeOp.{make_op, op_at}
use enumc.Parser.Literal.{parse_isize}
use enumc.Parser.Expr.{Expr, to_exprs}
use enumc.Parser.Expr.Left.{make_call}
use enumc.Parser.Expr.Tree.{leaf, tree_expr, yard_loop, expr_at, make_operators, make_expr}
use enumc.Parser.Expr.Chain.{
  Term, name, number, group, apply, Chain, last, link, Args, only, more, print_term, print_chain,
  print_args, meant, meant_chain, meant_args, links, final, is_name, is_term, is_chain, are_args,
  is_end, fuel_of_term, fuel_of_chain, fuel_of_args,
}
use enumc.Parser.Expr.Loop.{ReadsTerm, yard_loop-last, yard_loop-link, yard_loop-only}
use enumc.Parser.Expr.Terms.{
  advance, ReadsTerm-name, ReadsTerm-number, ReadsChain, advance-group, ReadsTerm-group, ReadsArgs,
  ReadsArgs-only, ReadsArgs-more, make_call-args, ReadsTerm-apply,
}

module _ (number_of : String → ℕ) (parse_f64 : Bool → String → Option ℕ) (in_match : Bool) where
  -- A chain starts the loop of `make_expr`.
  make_expr-term :
      (fuel : ℕ) (term : Term) (rest : List Tok)
      → is_term term ≡ true
      → make_expr number_of parse_f64 in_match (suc fuel) (print_term term rest)
        ≡ yard_loop fuel (advance number_of parse_f64 in_match fuel) [] [] (print_term term rest)
  unfolding make_expr eat_whitespace expr_at make_operators print_term is_term
  make_expr-term fuel (name text) rest h =
      rw
        (
          make_operators,
          not-true (is_keyword text) (and-right (kept text) (not (is_keyword text)) h),
        )
        refl
  make_expr-term fuel (number text) rest h =
      rw
        (
          make_operators,
          not-true (is_keyword text)
              (and-right (is_some (parse_isize text)) (not (is_keyword text)) h),
        )
        refl
  make_expr-term fuel (group chain) rest h = unfold is_keyword in refl
  make_expr-term fuel (apply text args) rest h =
      rw
        (
          make_operators,
          not-true (is_keyword text) (
              and-right (kept text) (not (is_keyword text))
                (and-left (is_name text) (are_args args) h)),
        )
        refl

  make_expr-chain_lem :
      (fuel : ℕ) (chain : Chain) (rest : List Tok)
      → is_chain chain ≡ true
      → make_expr number_of parse_f64 in_match (suc fuel) (print_chain chain rest)
        ≡ yard_loop fuel (advance number_of parse_f64 in_match fuel) [] [] (print_chain chain rest)
  unfolding print_chain is_chain
  make_expr-chain_lem fuel (last term) rest h = make_expr-term fuel term rest h
  make_expr-chain_lem fuel (link term op chain) rest h =
      make_expr-term fuel term _ (and-left (is_term term) _ h)

  fuel_of_chain-pos : (chain : Chain) → 2 ≤ fuel_of_chain chain
  unfolding fuel_of_chain
  fuel_of_chain-pos (last term) = omega arith
  fuel_of_chain-pos (link term op chain) = let p = fuel_of_chain-pos chain in omega arith

  -- Fuel for the loop of a chain is fuel for the chain.
  ReadsChain-loop :
      (fuel : ℕ) (chain : Chain)
      → fuel_of_chain chain ≤ fuel
      → is_chain chain ≡ true
      → ((f : ℕ)
          → fuel_of_chain chain ≤ suc f
          → (t : Tok) (rest : List Tok) → is_end t.kind ≡ true
          → yard_loop f
              (advance number_of parse_f64 in_match f)
              []
              []
              (print_chain chain (t ∷ rest))
            ≡ done (meant_chain number_of chain) (t ∷ rest))
      → ReadsChain number_of parse_f64 in_match fuel chain
  unfolding ReadsChain
  ReadsChain-loop zero chain le h loop t rest e =
      let p = fuel_of_chain-pos chain in absurd (omega arith)
  ReadsChain-loop (suc fuel) chain le h loop t rest e =
      make_expr-chain_lem fuel chain (t ∷ rest) h ∙ loop fuel le t rest e

  mutual
    unfolding fuel_of_term is_term fuel_of_chain is_chain print_chain links final fuel_of_args
        are_args

    ReadsTerm-term :
        (fuel : ℕ) (term : Term)
        → fuel_of_term term ≤ fuel
        → is_term term ≡ true
        → ReadsTerm number_of (advance number_of parse_f64 in_match fuel) term
    ReadsTerm-term fuel (name text) le h =
        ReadsTerm-name number_of parse_f64 in_match fuel text le
          (and-left (kept text) (not (is_keyword text)) h)
    ReadsTerm-term fuel (number text) le h =
        ReadsTerm-number number_of parse_f64 in_match fuel text
          (and-left (is_some (parse_isize text)) (not (is_keyword text)) h)
    ReadsTerm-term fuel (group chain) le h =
        ReadsTerm-group number_of parse_f64 in_match fuel chain (
          ReadsChain-loop fuel chain le h
            (λ f lf t rest e. yard_loop-chain f f chain [] t rest lf lf h tt e))
    ReadsTerm-term zero (apply text args) le h = absurd (omega arith)
    ReadsTerm-term (suc zero) (apply text args) le h = absurd (omega arith)
    ReadsTerm-term (suc (suc fuel)) (apply text args) le h =
        ReadsTerm-apply number_of parse_f64 in_match fuel text args
          (and-left (kept text) (not (is_keyword text)) (and-left (is_name text) (are_args args) h))
          (ReadsArgs-args (suc fuel) (suc (suc fuel)) args (omega arith) (omega arith)
            (and-right (is_name text) (are_args args) h))

    pub yard_loop-chain :
        (rounds fuel : ℕ) (chain : Chain) (pending : Pending Expr) (t : Tok) (rest : List Tok)
        → fuel_of_chain chain ≤ suc rounds
        → fuel_of_chain chain ≤ suc fuel
        → is_chain chain ≡ true
        → AllBinary pending
        → is_end t.kind ≡ true
        → yard_loop rounds
            (advance number_of parse_f64 in_match fuel)
            (opstack pending)
            (output pending)
            (print_chain chain (t ∷ rest))
          ≡ done
              (tree_expr (run (links number_of chain) pending (leaf (final number_of chain))))
              (t ∷ rest)
    yard_loop-chain zero fuel (last term) pending t rest le lf h all e = absurd (omega arith)
    yard_loop-chain (suc rounds) fuel (last term) pending t rest le lf h all e =
        yard_loop-last number_of rounds (advance number_of parse_f64 in_match fuel) term pending t
          rest (ReadsTerm-term fuel term (omega arith) h) all e
    yard_loop-chain zero fuel (link term op chain) pending t rest le lf h all e =
        let p = fuel_of_chain-pos chain in absurd (omega arith)
    yard_loop-chain (suc rounds) fuel (link term op chain) pending t rest le lf h all e =
        let tail = and-right (is_term term) (not (is_assign_like op) && is_chain chain) h in
        let binary =
          not-true (is_assign_like op) (and-left (not (is_assign_like op)) (is_chain chain) tail) in
        let reads =
          ReadsTerm-term fuel term (omega arith)
            (and-left (is_term term) (not (is_assign_like op) && is_chain chain) h) in
        yard_loop-link number_of rounds (advance number_of parse_f64 in_match fuel) term op chain
          pending (t ∷ rest) reads all binary
        ∙ yard_loop-chain rounds fuel chain (push pending (leaf (meant number_of term)) op) t rest
            (omega arith) (omega arith) (and-right (not (is_assign_like op)) (is_chain chain) tail)
            (push-AllBinary pending (leaf (meant number_of term)) op all binary) e

    ReadsArgs-args :
        (rounds fuel : ℕ) (args : Args)
        → fuel_of_args args ≤ rounds
        → fuel_of_args args ≤ fuel
        → are_args args ≡ true
        → ReadsArgs number_of parse_f64 in_match rounds fuel args
    ReadsArgs-args zero fuel (only chain) le lf h = absurd (omega arith)
    ReadsArgs-args (suc rounds) fuel (only chain) le lf h =
        ReadsArgs-only number_of parse_f64 in_match rounds fuel chain (
          ReadsChain-loop fuel chain (omega arith) h
            (λ f lf t rest e. yard_loop-chain f f chain [] t rest lf lf h tt e))
    ReadsArgs-args zero fuel (more chain args) le lf h = absurd (omega arith)
    ReadsArgs-args (suc rounds) fuel (more chain args) le lf h =
        ReadsArgs-more number_of parse_f64 in_match rounds fuel chain args
          (ReadsChain-loop fuel chain (omega arith) (and-left (is_chain chain) (are_args args) h)
            (λ f lf t rest e.
              yard_loop-chain f f chain [] t rest lf lf
                (and-left (is_chain chain) (are_args args) h) tt e))
          (ReadsArgs-args rounds fuel args (omega arith) (omega arith)
            (and-right (is_chain chain) (are_args args) h))

  -- With enough fuel, `make_expr` reads the expression that is meant by a written chain of operands and
  -- binary operators, and leaves what follows, if that starts with a comma, a semicolon or a closing
  -- bracket. Operands are names, decimal numbers of an `isize`, chains in parentheses and calls with
  -- arguments; the tree of a chain is that of the shunting yard.
  pub make_expr-print_chain :
      (fuel : ℕ) (chain : Chain) (t : Tok) (rest : List Tok)
      → fuel_of_chain chain ≤ fuel
      → is_chain chain ≡ true
      → is_end t.kind ≡ true
      → make_expr number_of parse_f64 in_match fuel (print_chain chain (t ∷ rest))
        ≡ done (meant_chain number_of chain) (t ∷ rest)
  unfolding ReadsChain
  make_expr-print_chain fuel chain t rest le h e =
      ReadsChain-loop fuel chain le h
        (λ f lf t rest e. yard_loop-chain f f chain [] t rest lf lf h tt e) t rest e

  abbrev open_block : List Tok → List Tok
  open_block rest = tok open_brace "{" ∷ rest

  -- A chain in parentheses, in front of a block
  pub make_expr-print_group :
      (fuel : ℕ) (chain : Chain) (rest : List Tok)
      → fuel_of_chain chain ≤ fuel
      → is_chain chain ≡ true
      → make_expr number_of parse_f64 in_match
          (suc fuel)
          (print_term (group chain) (space ∷ open_block rest))
        ≡ done (meant number_of (group chain)) (open_block rest)
  unfolding is_term fuel_of_chain
  make_expr-print_group zero chain rest le h =
      let p = fuel_of_chain-pos chain in absurd (omega arith)
  make_expr-print_group (suc fuel) chain rest le h =
      make_expr-term (suc fuel) (group chain) (space ∷ open_block rest) h
      ∙ yard_loop-only number_of fuel (advance number_of parse_f64 in_match (suc fuel))
          (group chain) (space ∷ open_block rest) (tok open_brace "{") rest
          (advance-group number_of parse_f64 in_match (suc fuel) chain true (tok open_brace "{")
              rest
              (ReadsChain-loop (suc fuel) chain le h
                (λ f lf t rest e. yard_loop-chain f f chain [] t rest lf lf h tt e))
              refl
            ∙ unfold make_op op_at in refl)
          refl

  -- The arguments of a call, up to the token behind it
  pub make_call-print_args :
      (fuel : ℕ) (path : List ℕ) (args : Args) (t : Tok) (rest : List Tok)
      → fuel_of_args args ≤ fuel
      → are_args args ≡ true
      → make_call number_of in_match fuel
          (make_expr number_of parse_f64 in_match (suc fuel))
          path
          (tok open_paren "(" ∷ print_args args (tok close_paren ")" ∷ t ∷ rest))
        ≡ done (Expr.call path (to_exprs (meant_args number_of args)) []) (t ∷ rest)
  make_call-print_args fuel path args t rest le h =
      make_call-args number_of parse_f64 in_match fuel (suc fuel) path args false t rest
        (ReadsArgs-args fuel (suc fuel) args le (omega arith) h)
