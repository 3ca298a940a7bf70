-- ===== src/Parser/Stmt/State.antt =====
-- src/ast/parse.rs: the flag `in_match_stmt` of `AstBuilder`, which statements read and change.
use enumc.Prelude.{Bool, true, false}
use enumc.Lexer.Match.{TokenMatch}
use enumc.Parser.Stream.{Parse, Parsed, ParseError, failed, panic, then_at, ◌>>=◌, eat_if}
use enumc.Parser.Eat.{eat_if_kw}
use Prim.Native.String.{String}

-- A reader with the flag, before and after
abbrev pub Flagged : Type 0 → Type 0
Flagged A = Bool → Parse (A × Bool)

module _ {A : Type 0} where
  -- A reader that leaves the flag as it is
  abbrev pub lift : Parse A → Flagged A
  lift p flag = p >>= (λ a toks. Parsed.done (a, flag) toks)

  abbrev pub return : A → Flagged A
  return a flag toks = Parsed.done (a, flag) toks

  abbrev pub reject : ParseError → Flagged A
  reject error flag toks = failed error

  abbrev pub crash : Flagged A
  crash flag toks = panic

  -- A reader that looks at the flag
  abbrev pub with_flag : (Bool → Parse A) → Flagged A
  with_flag p flag = lift (p flag) flag

-- `self.in_match_stmt = flag`
abbrev pub set_flag : Bool → Flagged (Unit {0})
set_flag value flag toks = Parsed.done (tt, value) toks

module _ {A B : Type 0} where
  infixl 5 ◌>=>◌
  abbrev pub ◌>=>◌ : Flagged A → (A → Flagged B) → Flagged B
  ◌>=>◌ p f flag toks = then_at (p flag toks) (λ r. f r.0 r.1)

module _ {A : Type 0} where
  -- By whether a token is eaten
  abbrev pub when_eaten : TokenMatch → Flagged A → Flagged A → Flagged A
  when_eaten pat then_do else_do =
      lift (eat_if pat) >=> (λ eaten. elim eaten [ true ↦ then_do | false ↦ else_do ])

  -- By whether a keyword is eaten
  abbrev pub when_kw : String → Flagged A → Flagged A → Flagged A
  when_kw kw then_do else_do =
      lift (eat_if_kw kw) >=> (λ eaten. elim eaten [ true ↦ then_do | false ↦ else_do ])
