-- ===== src/Lexer/Exact.antt =====
-- Which token a text begins with, from what `token_kind` does behind its first character.
use enumc.Prelude.{ℕ, ◌≡◌, sym, subst, ap₂, Bool, true, not, List, [], ◌∷◌, ◌++◌, some, arith, all}
use enumc.Lexer.Token.{TokenKind}
use enumc.Lexer.Chars.{UnicodeXid, str_len}
use enumc.Lexer.Cursor.{Cursor, new, bump}
use enumc.Lexer.Scan.{eat_while_in, eat_while}
use enumc.Lexer.Advance.{token_kind, advance_token, first_token}
use enumc.Lexer.Forward.Token.{token_kind-Forward}
use enumc.Lexer.Cover.{str_len-append}

-- A predicate does not hold of the first character, if there is one.
abbrev pub stops : (ℕ → Bool) → List ℕ → Bool
stops p [] = true
stops p (x ∷ xs) = not (p x)

pub eat_while_in-exact :
    (p : ℕ → Bool) (text rest : List ℕ) (c : Cursor)
    → c.chars ≡ text ++ rest
    → all p text ≡ true
    → stops p rest ≡ true
    → (eat_while_in (text ++ rest) p c).chars ≡ rest
unfolding eat_while_in
eat_while_in-exact p [] [] c e h s = e
eat_while_in-exact p [] (x ∷ xs) c e h s = ground arith
eat_while_in-exact p (y ∷ text) rest c e h s =
    ground (arith, eat_while_in-exact p text rest (record c { chars = text ++ rest; prev = y }))

-- `eat_while` takes the longest prefix whose characters all satisfy the predicate.
pub eat_while-exact :
    (p : ℕ → Bool) (text rest : List ℕ) (c : Cursor)
    → c.chars ≡ text ++ rest
    → all p text ≡ true
    → stops p rest ≡ true
    → (eat_while p c).1.chars ≡ rest
unfolding eat_while
eat_while-exact p text rest c e h s =
    subst (λ xs. (eat_while_in xs p c).chars ≡ rest) (sym e)
      (eat_while_in-exact p text rest c e h s)

-- The cursor behind the first character of a text.
abbrev pub behind : ℕ → List ℕ → Cursor
behind x xs = (bump (new (x ∷ xs))).1

module _ (u : UnicodeXid) where
  pub first_token-exact :
      (x : ℕ) (text rest : List ℕ) {kind : TokenKind}
      → (token_kind u x (behind x (text ++ rest))).0 ≡ kind
      → (token_kind u x (behind x (text ++ rest))).1.chars ≡ rest
      → first_token u (x ∷ text ++ rest) ≡ some (record { kind = kind; len = str_len (x ∷ text) })
  unfolding first_token advance_token new
  first_token-exact x text rest k e =
      let f = token_kind-Forward u x (behind x (text ++ rest)) in
      ap₂ (λ kind len. some (record { kind = kind; len = len })) k
        (rw (f.len_kept, e) (omega (arith, str_len-append (x ∷ text) rest)))
