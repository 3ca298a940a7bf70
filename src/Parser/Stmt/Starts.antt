-- ===== src/Parser/Stmt/Starts.antt =====
-- src/ast/parse.rs: how a written statement that holds no others starts and ends.
use Prim.Native.String.{String}
use text.Mathlib.Text.{◌==◌}
use enumc.Prelude.{ℕ, suc, ◌≡◌, refl, Bool, true, false, not, ◌||◌, List, ◌∷◌, Option, arith}
use enumc.Lexer.Token.{ident}
use enumc.Lexer.Match.{TokenMatch, matches}
use enumc.Parser.Stream.{Tok, done, is_blank, curr_kind, eat_if, eat_whitespace}
use enumc.Parser.Eat.{eat_if_kw}
use enumc.Parser.Types.{is_keyword}
use enumc.Parser.Types.Print.{tok, space, kept}
use enumc.Parser.Types.Segs.{and-left, and-right, not-true}
use enumc.Parser.Expr.{Expr}
use enumc.Parser.Expr.Tree.{make_expr}
use enumc.Parser.Expr.Chain.{Chain, last, link, gap, print_chain, is_name, is_stop}
use enumc.Parser.Expr.Steps.{make_lh_expr-name}
use enumc.Parser.Expr.Loop.{term-semi}
use enumc.Parser.Stmt.{Stmt}
use enumc.Parser.Stmt.State.{Flagged, ◌>=>◌, with_flag}
use enumc.Parser.Stmt.Block.{
  blanks, make_lh_stmt, expr_stmt_at, make_expr_stmt, stmt_of, stmt_body, make_stmt,
}
use enumc.Parser.Stmt.Print.{semi_tok, stmt_keyword, is_stmt_name}

or-left : (a b : Bool) → (a || b) ≡ false → a ≡ false
or-left a b h = ground arith

pub or-right : (a b : Bool) → (a || b) ≡ false → b ≡ false
or-right a b h = ground arith

pub stmt_name-kept : (text : String) → is_stmt_name text ≡ true → kept text ≡ true
stmt_name-kept text h =
    and-left (kept text) (not (is_keyword text))
      (and-left (is_name text) (not (stmt_keyword text)) h)

pub stmt_name-other : (text : String) → is_stmt_name text ≡ true → stmt_keyword text ≡ false
stmt_name-other text h =
    not-true (stmt_keyword text) (and-right (is_name text) (not (stmt_keyword text)) h)

pub chain-semi :
    (c : Chain) (rest : List Tok) → matches TokenMatch.semi (curr_kind (print_chain c rest)) ≡ false
unfolding print_chain
chain-semi (last term) rest = term-semi term rest
chain-semi (link term op c) rest = term-semi term _

-- The tokens that may stand behind a statement that ends in a block
pub record IsNext (t : Tok) : Type 0 where
  pub no_blank : is_blank t.kind ≡ false
  pub no_semi : matches TokenMatch.semi t.kind ≡ false
  pub no_else : ("else" == t.text) ≡ false

module _ (number_of : String → ℕ) (parse_f64 : Bool → String → Option ℕ) where
  -- The end of a statement at its semicolon
  pub make_stmt-semi :
      (fuel : ℕ) (toks rest : List Tok) (s : Stmt)
      → stmt_body number_of parse_f64 fuel (make_stmt number_of parse_f64 fuel) false toks
        ≡ done (s, false) (semi_tok ∷ space ∷ rest)
      → make_stmt number_of parse_f64 (suc fuel) false toks ≡ done (s, false) (space ∷ rest)
  unfolding make_stmt eat_whitespace eat_if matches
  make_stmt-semi fuel toks rest s h = rw h refl

  -- A name, and not a keyword, starts the statement.
  pub stmt_body-name :
      (fuel : ℕ) (rec : Flagged Stmt) (text : String) (rest : List Tok)
      → stmt_keyword text ≡ false
      → stmt_body number_of parse_f64 fuel rec false (tok ident text ∷ rest)
        ≡ make_lh_stmt number_of parse_f64 fuel false (tok ident text ∷ rest)
  unfolding stmt_body eat_if_kw eat_if matches make_expr_stmt expr_stmt_at
  stmt_body-name fuel rec text rest h =
      let h1 = or-right ("let" == text) _ h in
      let h2 = or-right ("if" == text) _ h1 in
      let h3 = or-right ("while" == text) _ h2 in
      let h4 = or-right ("return" == text) _ h3 in
      let h5 = or-right ("match" == text) _ h4 in
      let h6 = or-right ("asm" == text) _ h5 in
      rw (eat_if_kw, or-left ("let" == text) _ h)
        (rw (eat_if_kw, or-left ("if" == text) _ h1)
          (rw (eat_if_kw, or-left ("while" == text) _ h2)
            (rw (eat_if_kw, or-left ("return" == text) _ h3)
              (rw (eat_if_kw, or-left ("match" == text) _ h4)
                (rw (eat_if_kw, or-left ("asm" == text) _ h5)
                  (rw (eat_if_kw, or-left ("exit" == text) _ h6) refl))))))

  -- A statement that starts with a name, from its left hand expression on
  pub lh_stmt-name :
      (fuel : ℕ) (name : String) (b : Bool) (t : Tok) (rest : List Tok)
      → kept name ≡ true
      → is_stop t.kind ≡ true
      → make_lh_stmt number_of parse_f64 (suc (suc fuel)) false (tok ident name ∷ gap b (t ∷ rest))
        ≡ (blanks >=> (λ u. with_flag (λ flag.
              stmt_of
                (make_expr number_of parse_f64 flag (suc (suc fuel)))
                (Expr.ident (number_of name)))))
            false
            (t ∷ rest)
  unfolding make_lh_stmt
  lh_stmt-name fuel name b t rest k h =
      rw
        (make_lh_expr-name number_of false fuel
          (make_expr number_of parse_f64 false (suc (suc fuel))) name b t rest k h)
        refl
