-- ===== src/Lexer/Cursor.antt =====
-- src/ast/lex/eater.rs: the `Cursor`, and the state monad of the methods that move it.
use enumc.Prelude.{ℕ, zero, suc, ◌-◌, Bool, true, false, List, [], ◌∷◌, Option, none, some}
use enumc.Lexer.Chars.{str_len}

-- `chars` is the rest of the iterator, and `prev` the last character taken (of debug builds).
pub record Cursor : Type 0 where
  pub initial_len : ℕ
  pub chars : List ℕ
  pub prev : ℕ

abbrev pub eof_char : ℕ
eof_char = 0

-- `Cursor::new`
unfoldable pub new : List ℕ → Cursor
new input = record { initial_len = str_len input; chars = input; prev = eof_char }

-- A method that takes `&mut self`.
abbrev pub Lex : Type 0 → Type 0
Lex A = Cursor → A × Cursor

module _ {A : Type 0} where
  abbrev pub pure : A → Lex A
  pure a c = (a, c)

module _ {A B : Type 0} where
  infixl 5 ◌>>=◌
  abbrev pub ◌>>=◌ : Lex A → (A → Lex B) → Lex B
  ◌>>=◌ m f c = f (m c).0 (m c).1

  infixl 5 ◌>>◌
  abbrev pub ◌>>◌ : Lex A → Lex B → Lex B
  ◌>>◌ m k c = k (m c).1

abbrev pub nth : ℕ → List ℕ → ℕ
nth n [] = eof_char
nth zero (c ∷ cs) = c
nth (suc n) (c ∷ cs) = nth n cs

-- `nth_char(n)`: the default of `unwrap_or` is the end-of-file character.
abbrev pub nth_char : ℕ → Lex ℕ
nth_char n c = (nth n c.chars, c)

abbrev pub first : Lex ℕ
first = nth_char 0

abbrev pub second : Lex ℕ
second = nth_char 1

abbrev pub is_empty : List ℕ → Bool
is_empty [] = true
is_empty (c ∷ cs) = false

abbrev pub is_eof : Lex Bool
is_eof c = (is_empty c.chars, c)

abbrev pub len_consumed : Lex ℕ
len_consumed c = (c.initial_len - str_len c.chars, c)

abbrev pub bump_in : List ℕ → Lex (Option ℕ)
bump_in [] c = (none, c)
bump_in (x ∷ xs) c = (some x, record c { chars = xs; prev = x })

abbrev pub bump : Lex (Option ℕ)
bump c = bump_in c.chars c
