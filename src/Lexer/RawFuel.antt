-- ===== src/Lexer/RawFuel.antt =====
-- The loop of a raw string does not run out of the fuel that `raw_contents` gives it.
use enumc.Prelude.{
  ℕ, zero, suc, ◌<◌, ◌≡◌, refl, Bool, true, false, not, List, [], ◌∷◌, Option, none, some, arith,
  ltb, ◌==◌, if◌then◌else◌, length, Bool-cases, inl, inr,
}
use enumc.Lexer.Token.{RawStrError}
use enumc.Lexer.Cursor.{Cursor, Lex, bump, bump_in, is_empty}
use enumc.Lexer.Scan.{eat_while}
use enumc.Lexer.RawString.{Opened, eat_closing_hashes, raw_loop}
use enumc.Lexer.Forward.Scan.{eat_while-Forward}
use enumc.Lexer.Forward.Literals.{eat_closing_hashes-Forward}
use enumc.Lexer.Slices.{Suffix-length}

abbrev pub finished : Option (ℕ × Option RawStrError) → Bool
finished none = false
finished (some r) = true

if-finished :
    (b : Bool) (m n : Lex (Option (ℕ × Option RawStrError))) (c : Cursor)
    → finished (m c).0 ≡ true
    → finished (n c).0 ≡ true
    → finished ((if b then m else n) c).0 ≡ true
if-finished true m n c p q = p
if-finished false m n c p q = q

bump_in-length :
    (xs : List ℕ) (c : Cursor)
    → is_empty xs ≡ false
    → suc (length (bump_in xs c).1.chars) ≡ length xs
bump_in-length [] c h = cc
bump_in-length (x ∷ xs) c h = refl

-- The loop of a raw string ends, with a result, if it has more fuel than there are characters left.
pub raw_loop-finished :
    (fuel : ℕ) (o : Opened) (offset : Option ℕ) (most : ℕ) (c : Cursor)
    → length c.chars < fuel
    → finished (raw_loop fuel o offset most c).0 ≡ true
unfolding raw_loop
raw_loop-finished zero o offset most c h = absurd (omega arith)
raw_loop-finished (suc fuel) o offset most c h =
    let at_quote = (eat_while (λ x. not (x == b'"')) c).1 in
    let closed = eat_closing_hashes o.n_start_hashes (bump at_quote).1 in
    let skipped = Suffix-length (eat_while-Forward (λ x. not (x == b'"')) c).suffix in
    let hashes =
      Suffix-length (eat_closing_hashes-Forward o.n_start_hashes (bump at_quote).1).suffix in
    elim (Bool-cases (is_empty at_quote.chars)) [
      | inl end ↦ rw end refl
      | inr more ↦
          let quote = bump_in-length at_quote.chars at_quote more in
          let fewer : length closed.1.chars < fuel = omega arith in
          rw more (
            if-finished (closed.0 == o.n_start_hashes) _ _ closed.1 refl (
              if-finished (ltb most closed.0) _ _ closed.1 (raw_loop-finished fuel o _ _ _ fewer)
                (raw_loop-finished fuel o _ _ _ fewer)))
    ]
