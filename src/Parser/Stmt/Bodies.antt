-- ===== src/Parser/Stmt/Bodies.antt =====
-- src/ast/parse.rs: how the loop of `make_block` reads written statements, if `make_stmt` reads each.
use Prim.Native.String.{String}
use text.Mathlib.Text.{◌==◌}
use mathlib.Core.List.{append_assoc}
use enumc.Prelude.{
  ℕ, zero, suc, ◌≡◌, refl, sym, subst, ap, ◌∙◌, Bool, true, false, List, [], ◌∷◌, ◌++◌, Option,
}
use enumc.Lexer.Token.{ident, close_brace}
use enumc.Lexer.Match.{TokenMatch, matches}
use enumc.Parser.Stream.{
  Tok, done, then_at, eat_if, eat_whitespace, zip_all, without_blanks, cmp_seq_ignore_ws,
}
use enumc.Parser.Eat.{eat_if_kw}
use enumc.Parser.Types.Print.{tok, space}
use enumc.Parser.Types.Segs.{and-left}
use enumc.Parser.Expr.Chain.{gap}
use enumc.Parser.Expr.Steps.{eat_whitespace-gap}
use enumc.Parser.Stmt.{Stmt, to_stmts}
use enumc.Parser.Stmt.State.{Flagged, return}
use enumc.Parser.Stmt.Block.{empty_block, stmts_loop, make_block, make_stmt}
use enumc.Parser.Stmt.Print.{
  Written, let_in, set, update, invoke, give, leave, quit, repeat, branch, choose, Body, only, more,
  opened, print, print_body, print_block, meant_stmt, meant_stmts, is_stmt_name, is_written,
  is_body,
}
use enumc.Parser.Stmt.Starts.{or-right, stmt_name-other, IsNext}

name-else : (text : String) → is_stmt_name text ≡ true → ("else" == text) ≡ false
name-else text h = or-right ("exit" == text) _ (
    or-right ("asm" == text) _ (
      or-right ("match" == text) _ (
        or-right ("return" == text) _ (
          or-right ("while" == text) _
            (or-right ("if" == text) _ (or-right ("let" == text) _ (stmt_name-other text h)))))))

-- A statement starts with a name or a keyword, which is not `else`.
unfoldable Headed : List Tok → Type 0
Headed toks =
    (text : String) × (rest : List Tok) × (toks ≡ tok ident text ∷ rest)
    × (("else" == text) ≡ false)

print-Headed : (s : Written) (rest : List Tok) → is_written s ≡ true → Headed (print s rest)
unfolding print is_written Headed
print-Headed (let_in name c) rest h = ("let", _, refl, refl)
print-Headed (set name c) rest h =
    (name, _, refl, name-else name (and-left (is_stmt_name name) _ h))
print-Headed (update name op c) rest h =
    (name, _, refl, name-else name (and-left (is_stmt_name name) _ h))
print-Headed (invoke name args) rest h =
    (name, _, refl, name-else name (and-left (is_stmt_name name) _ h))
print-Headed (give c) rest h = ("return", _, refl, refl)
print-Headed leave rest h = ("return", _, refl, refl)
print-Headed quit rest h = ("exit", _, refl, refl)
print-Headed (repeat c body) rest h = ("while", _, refl, refl)
print-Headed (branch c body) rest h = ("if", _, refl, refl)
print-Headed (choose c body other) rest h = ("if", _, refl, refl)

print_body-Headed :
    (body : Body) (rest : List Tok) → is_body body ≡ true → Headed (print_body body rest)
unfolding print_body is_body
print_body-Headed (only s) rest h = print-Headed s _ h
print_body-Headed (more s body) rest h = print-Headed s _ (and-left (is_written s) _ h)

ident-IsNext : (text : String) → ("else" == text) ≡ false → IsNext (tok ident text)
unfolding matches
ident-IsNext text h = record { no_blank = refl; no_semi = refl; no_else = h }

brace-IsNext : IsNext (tok close_brace "}")
unfolding matches
brace-IsNext = record { no_blank = refl; no_semi = refl; no_else = refl }

pub eat_if-next :
    (t : Tok) (rest : List Tok)
    → IsNext t
    → eat_if TokenMatch.semi (t ∷ rest) ≡ done false (t ∷ rest)
unfolding eat_if
eat_if-next t rest h = rw h.no_semi refl

pub eat_if_kw-next :
    (t : Tok) (rest : List Tok) → IsNext t → eat_if_kw "else" (t ∷ rest) ≡ done false (t ∷ rest)
unfolding eat_if_kw
eat_if_kw-next t rest h = rw (eat_if_kw, h.no_else) refl

-- What starts like a statement is no white space, and no end of a block.
Headed-blank : (toks : List Tok) → Headed toks → eat_whitespace toks ≡ done tt toks
unfolding Headed eat_whitespace
Headed-blank toks (text, rest, e, h) = subst (λ l. eat_whitespace l ≡ done tt l) (sym e) refl

Headed-gap : (b : Bool) (toks : List Tok) → Headed toks → eat_whitespace (gap b toks) ≡ done tt toks
unfolding Headed eat_whitespace
Headed-gap b toks (text, rest, e, h) =
    subst (λ l. eat_whitespace (gap b l) ≡ done tt l) (sym e)
      (eat_whitespace-gap b (tok ident text) rest refl)

Headed-brace :
    (toks : List Tok) → Headed toks → eat_if TokenMatch.close_brace toks ≡ done false toks
unfolding Headed eat_if matches
Headed-brace toks (text, rest, e, h) =
    subst (λ l. eat_if TokenMatch.close_brace l ≡ done false l) (sym e) refl

Headed-full : (toks : List Tok) → Headed toks → cmp_seq_ignore_ws empty_block (opened toks) ≡ false
unfolding Headed cmp_seq_ignore_ws without_blanks zip_all matches
Headed-full toks (text, rest, e, h) =
    subst (λ l. cmp_seq_ignore_ws empty_block (opened l) ≡ false) (sym e) refl

stmts_loop-space :
    (fuel : ℕ) (rec : Flagged Stmt) (stmts : List Stmt) (toks : List Tok)
    → stmts_loop fuel rec stmts false (space ∷ toks) ≡ stmts_loop fuel rec stmts false toks
unfolding stmts_loop eat_whitespace
stmts_loop-space zero rec stmts toks = refl
stmts_loop-space (suc fuel) rec stmts toks = refl

module _ (number_of : String → ℕ) (parse_f64 : Bool → String → Option ℕ) where
  -- `make_stmt` reads a statement, and perhaps the white space behind it.
  unfoldable pub ReadsStmt : ℕ → Written → Type 0
  ReadsStmt fuel s =
      (t : Tok) (rest : List Tok)
      → IsNext t
      → (b : Bool) × (make_stmt number_of parse_f64 fuel false (print s (space ∷ t ∷ rest))
          ≡ done (meant_stmt number_of s, false) (gap b (t ∷ rest)))

  ReadsStmt-Headed :
      (fuel : ℕ) (s : Written) (toks : List Tok)
      → ReadsStmt fuel s
      → Headed toks
      → (b : Bool) × (make_stmt number_of parse_f64 fuel false (print s (space ∷ toks))
          ≡ done (meant_stmt number_of s, false) (gap b toks))
  unfolding ReadsStmt Headed
  ReadsStmt-Headed fuel s toks reads (text, rest, e, h) =
      let (b, q) = reads (tok ident text) rest (ident-IsNext text h) in
      (
        b,
        subst
            (λ l.
              make_stmt number_of parse_f64 fuel false (print s (space ∷ l))
              ≡ done (meant_stmt number_of s, false) (gap b l))
            (sym e) q,
      )

  -- The loop over statements reads a body and the brace behind it.
  unfoldable pub ReadsBody : ℕ → ℕ → Body → Type 0
  ReadsBody rounds fuel body =
      (stmts : List Stmt) (t : Tok) (rest : List Tok)
      → stmts_loop rounds (make_stmt number_of parse_f64 fuel) stmts false
          (print_body body (t ∷ rest))
        ≡ done (stmts ++ meant_stmts number_of body, false) (t ∷ rest)

  pub ReadsBody-only :
      (rounds fuel : ℕ) (s : Written)
      → is_written s ≡ true
      → ReadsStmt fuel s
      → ReadsBody (suc rounds) fuel (only s)
  unfolding ReadsStmt ReadsBody stmts_loop print_body meant_stmts
  ReadsBody-only rounds fuel s w reads stmts t rest =
      let brace = tok close_brace "}" in
      let (b, q) = reads brace (t ∷ rest) brace-IsNext in
      let headed = print-Headed s (space ∷ brace ∷ t ∷ rest) w in
      rw (Headed-blank (print s (space ∷ brace ∷ t ∷ rest)) headed) (
        rw (Headed-brace (print s (space ∷ brace ∷ t ∷ rest)) headed)
          (rw q (rw (eat_whitespace-gap b brace (t ∷ rest) refl) (unfold eat_if matches in refl))))

  pub ReadsBody-more :
      (rounds fuel : ℕ) (s : Written) (body : Body)
      → is_written s ≡ true
      → is_body body ≡ true
      → ReadsStmt fuel s
      → ReadsBody rounds fuel body
      → ReadsBody (suc rounds) fuel (more s body)
  unfolding ReadsBody stmts_loop print_body meant_stmts
  ReadsBody-more rounds fuel s body w v reads all_read stmts t rest =
      let toks = print_body body (t ∷ rest) in
      let next = print_body-Headed body (t ∷ rest) v in
      let (b, q) = ReadsStmt-Headed fuel s toks reads next in
      let headed = print-Headed s (space ∷ toks) w in
      rw (Headed-blank (print s (space ∷ toks)) headed) (
        rw (Headed-brace (print s (space ∷ toks)) headed) (
          rw q (
            rw (Headed-gap b toks next) (
              rw (Headed-brace toks next) (
                all_read (stmts ++ meant_stmt number_of s ∷ []) t rest
                ∙ ap (λ l. done (l, false) (t ∷ rest))
                    (append_assoc stmts (meant_stmt number_of s ∷ [])
                      (meant_stmts number_of body)))))))

  pub make_block-body :
      (fuel : ℕ) (depth : ℕ) (body : Body) (t : Tok) (rest : List Tok)
      → is_body body ≡ true
      → ReadsBody fuel depth body
      → make_block fuel (make_stmt number_of parse_f64 depth) false (print_block body (t ∷ rest))
        ≡ done (to_stmts (meant_stmts number_of body), false) (t ∷ rest)
  unfolding ReadsBody make_block
  make_block-body fuel depth body t rest w reads =
      let headed = print_body-Headed body (t ∷ rest) w in
      rw (make_block, Headed-full (print_body body (t ∷ rest)) headed)
        (unfold eat_whitespace eat_if matches in
          ap (λ p. then_at p (λ r. return (to_stmts r.0) r.1))
            (stmts_loop-space fuel (make_stmt number_of parse_f64 depth) []
                (print_body body (t ∷ rest))
              ∙ reads [] t rest))

  unfoldable pub ReadsBlock : ℕ → Body → Type 0
  ReadsBlock fuel body =
      (t : Tok) (rest : List Tok)
      → make_block fuel (make_stmt number_of parse_f64 fuel) false (print_block body (t ∷ rest))
        ≡ done (to_stmts (meant_stmts number_of body), false) (t ∷ rest)
