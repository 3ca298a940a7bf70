-- ===== src/Parser/Items/Loop.antt =====
-- src/ast/parse.rs: where the loop of `parse` makes no progress.
use Prim.Native.String.{String}
use enumc.Prelude.{ℕ, zero, suc, ◌≡◌, refl, ap, ◌∙◌, Bool, false, List, [], ◌∷◌, Option}
use enumc.Lexer.Token.{TokenKind, pound}
use enumc.Lexer.Match.{TokenMatch, matches}
use enumc.Parser.Stream.{Tok, Parsed, done, out_of_fuel, then_at}
use enumc.Parser.Eat.{eat_attr, eat_attr_at}
use enumc.Parser.Types.Print.{tok}
use enumc.Parser.Items.{Decl, parse_at, parse_loop, parse}

-- The attribute is eaten or not by the token behind `#`.
eat_attr-stuck :
    (t next : Tok) (rest : List Tok)
    → matches TokenMatch.open_bracket next.kind ≡ false
    → eat_attr (t ∷ next ∷ rest) ≡ done tt (t ∷ next ∷ rest)
unfolding eat_attr matches
eat_attr-stuck t next rest h = by_kind next.kind (t ∷ next ∷ rest) h
  where
    by_kind :
        (k : TokenKind) (toks : List Tok)
        → matches TokenMatch.open_bracket k ≡ false
        → eat_attr_at k toks ≡ done tt toks
    by_kind TokenKind.open_bracket toks e = absurd cc
    by_kind k toks e = refl

module _ (number : String → ℕ) (parse_f64 : Bool → String → Option ℕ) where
  parse_loop-pound :
      (fuel depth : ℕ) (items : List Decl) (flag : Bool) (text : String) (next : Tok)
      (rest : List Tok)
      → matches TokenMatch.open_bracket next.kind ≡ false
      → parse_loop number parse_f64 fuel depth items flag (tok pound text ∷ next ∷ rest)
        ≡ out_of_fuel
  unfolding parse_loop parse_at
  parse_loop-pound zero depth items flag text next rest h = refl
  parse_loop-pound (suc fuel) depth items flag text next rest h =
      ap
        (λ p.
          then_at {A = Unit × Bool} (then_at p (λ a toks. done (a, flag) toks))
            (λ r. parse_loop number parse_f64 fuel depth items r.1))
        (eat_attr-stuck (tok pound text) next rest h)
      ∙ parse_loop-pound fuel depth items flag text next rest h

  -- A `#` without a `[` behind it is never eaten: the loop of `parse` does not end, however much fuel it has.
  pub parse-pound :
      (fuel : ℕ) (text : String) (next : Tok) (rest : List Tok)
      → matches TokenMatch.open_bracket next.kind ≡ false
      → parse number parse_f64 fuel (tok pound text ∷ next ∷ rest) ≡ out_of_fuel
  unfolding parse
  parse-pound fuel text next rest h =
      ap (λ p. then_at p (λ r. Parsed.done r.0))
        (parse_loop-pound fuel fuel [] false text next rest h)
