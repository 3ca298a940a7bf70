-- ===== src/Parser/Stmt/Keeps.antt =====
-- src/ast/parse.rs: the readers that do not turn the flag `in_match_stmt` on, up to `make_block`.
use Prim.Native.String.{String}
use enumc.Prelude.{
  ℕ, zero, suc, ◌≡◌, refl, Bool, true, false, List, [], ◌∷◌, ◌++◌, inl, inr, Bool-cases,
}
use enumc.Lexer.Match.{TokenMatch}
use enumc.Parser.Stream.{
  Tok, Parse, Parsed, done, failed, panic, out_of_fuel, then_at, eat_if, eat_whitespace,
  cmp_seq_ignore_ws,
}
use enumc.Parser.Eat.{eat_if_kw, eat_seq_ignore_ws}
use enumc.Parser.Stmt.{Stmt, exit, to_stmts}
use enumc.Parser.Stmt.State.{Flagged, lift, return, with_flag, set_flag, ◌>=>◌, when_eaten, when_kw}
use enumc.Parser.Stmt.Block.{empty_block, blanks, stmts_loop, make_block}

-- The flag is off behind what was read.
abbrev pub Off : {A : Type 0} → Parsed (A × Bool) → Type 0
Off (done r toks) = r.1 ≡ false
Off (failed error) = Unit
Off panic = Unit
Off out_of_fuel = Unit

-- A reader does not turn the flag on.
unfoldable pub KeepsOff : {A : Type 0} → Flagged A → Type 0
KeepsOff p = (toks : List Tok) → Off (p false toks)

lift-Off : {A : Type 0} (p : Parsed A) → Off (then_at p (λ a rest. done (a, false) rest))
lift-Off (done a toks) = refl
lift-Off (failed error) = tt
lift-Off panic = tt
lift-Off out_of_fuel = tt

pub KeepsOff-lift : {A : Type 0} (p : Parse A) → KeepsOff (lift p)
unfolding KeepsOff
KeepsOff-lift p toks = lift-Off (p toks)

pub KeepsOff-with : {A : Type 0} (p : Bool → Parse A) → KeepsOff (with_flag p)
unfolding KeepsOff
KeepsOff-with p toks = lift-Off (p false toks)

pub KeepsOff-return : {A : Type 0} (a : A) → KeepsOff (return a)
unfolding KeepsOff
KeepsOff-return a toks = refl

then_at-Off :
    {A B : Type 0} (p : Parsed (A × Bool)) (f : A → Flagged B)
    → Off p
    → ((a : A) → KeepsOff (f a))
    → Off (then_at p (λ r. f r.0 r.1))
unfolding KeepsOff
then_at-Off (done r toks) f h k = rw h (k r.0 toks)
then_at-Off (failed error) f h k = tt
then_at-Off panic f h k = tt
then_at-Off out_of_fuel f h k = tt

pub KeepsOff-then :
    {A B : Type 0} (p : Flagged A) (f : A → Flagged B)
    → KeepsOff p
    → ((a : A) → KeepsOff (f a))
    → KeepsOff (p >=> f)
unfolding KeepsOff
KeepsOff-then p f h k toks = then_at-Off (p false toks) f (h toks) k

pub KeepsOff-blanks : {A : Type 0} (p : Flagged A) → KeepsOff p → KeepsOff (blanks >=> (λ u. p))
KeepsOff-blanks p h = KeepsOff-then blanks (λ u. p) (KeepsOff-lift eat_whitespace) (λ u. h)

pub KeepsOff-eat :
    {A : Type 0} (pat : TokenMatch) (p : Flagged A)
    → KeepsOff p
    → KeepsOff (lift (eat_if pat) >=> (λ u. p))
KeepsOff-eat pat p h =
    KeepsOff-then (lift (eat_if pat)) (λ u. p) (KeepsOff-lift (eat_if pat)) (λ u. h)

choose :
    {A : Type 0} (p q : Flagged A)
    → KeepsOff p
    → KeepsOff q
    → (b : Bool) → KeepsOff (elim b [ true ↦ p | false ↦ q ])
choose p q h k true = h
choose p q h k false = k

pub KeepsOff-eaten :
    {A : Type 0} (pat : TokenMatch) (p q : Flagged A)
    → KeepsOff p
    → KeepsOff q
    → KeepsOff (when_eaten pat p q)
KeepsOff-eaten pat p q h k = KeepsOff-then _ _ (KeepsOff-lift (eat_if pat)) (choose p q h k)

pub KeepsOff-kw :
    {A : Type 0} (kw : String) (p q : Flagged A)
    → KeepsOff p
    → KeepsOff q
    → KeepsOff (when_kw kw p q)
KeepsOff-kw kw p q h k = KeepsOff-then _ _ (KeepsOff-lift (eat_if_kw kw)) (choose p q h k)

-- A round of the loop over statements, where `again` is the rest of it
stmts_round-Off :
    (rec : Flagged Stmt) (again : Stmt → Flagged (List Stmt)) (stmts : List Stmt)
    → KeepsOff rec
    → ((s : Stmt) → KeepsOff (again s))
    → KeepsOff (
        blanks >=> (λ u. when_eaten TokenMatch.close_brace (return stmts) (
          rec >=> (λ s.
            blanks
            >=> (λ u. when_eaten TokenMatch.close_brace (return (stmts ++ s ∷ [])) (again s))))))
stmts_round-Off rec again stmts h k = KeepsOff-blanks _ (
    KeepsOff-eaten TokenMatch.close_brace _ _ (KeepsOff-return stmts) (
      KeepsOff-then rec _ h (λ s.
        KeepsOff-blanks _
          (KeepsOff-eaten TokenMatch.close_brace _ _ (KeepsOff-return (stmts ++ s ∷ [])) (k s)))))

stmts_loop-Off :
    (fuel : ℕ) (rec : Flagged Stmt) (stmts : List Stmt)
    → KeepsOff rec
    → KeepsOff (stmts_loop fuel rec stmts)
unfolding stmts_loop KeepsOff
stmts_loop-Off zero rec stmts h toks = tt
stmts_loop-Off (suc fuel) rec stmts h toks =
    stmts_round-Off rec (λ s. stmts_loop fuel rec (stmts ++ s ∷ [])) stmts h
      (λ s. stmts_loop-Off fuel rec (stmts ++ s ∷ []) h) toks

block_empty-Off :
    KeepsOff (lift (eat_seq_ignore_ws empty_block) >=> (λ u. return (to_stmts (exit ∷ []))))
block_empty-Off =
    KeepsOff-then _ _ (KeepsOff-lift (eat_seq_ignore_ws empty_block))
      (λ u. KeepsOff-return (to_stmts (exit ∷ [])))

block_full-Off :
    (fuel : ℕ) (rec : Flagged Stmt)
    → KeepsOff rec
    → KeepsOff (
        blanks >=> (λ u.
          when_eaten TokenMatch.open_brace
            (stmts_loop fuel rec [] >=> (λ stmts. return (to_stmts stmts)))
            (return (to_stmts []))))
block_full-Off fuel rec h = KeepsOff-blanks _ (
    KeepsOff-eaten TokenMatch.open_brace _ _
      (KeepsOff-then _ _ (stmts_loop-Off fuel rec [] h) (λ stmts. KeepsOff-return (to_stmts stmts)))
      (KeepsOff-return (to_stmts [])))

pub make_block-Off : (fuel : ℕ) (rec : Flagged Stmt) → KeepsOff rec → KeepsOff (make_block fuel rec)
unfolding make_block KeepsOff
make_block-Off fuel rec h toks = elim (Bool-cases (cmp_seq_ignore_ws empty_block toks)) [
  | inl e ↦ rw (make_block, e) (block_empty-Off toks)
  | inr e ↦ rw (make_block, e) (block_full-Off fuel rec h toks)
]

pub reset-Off :
    {A B : Type 0} (p : Parsed (A × Bool)) (f : A → B)
    → Off (then_at p (λ r. (set_flag false >=> (λ u. return (f r.0))) r.1))
reset-Off (done r toks) f = refl
reset-Off (failed error) f = tt
reset-Off panic f = tt
reset-Off out_of_fuel f = tt
