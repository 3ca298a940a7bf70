-- ===== src/Lexer/Strings.antt =====
-- What the lexer makes of string literals and of literals' suffixes.
use enumc.Prelude.{
  ℕ, ◌-◌, ◌≡◌, refl, sym, subst, ◌∙◌, ap, Bool, true, false, List, [], ◌∷◌, ◌++◌, some, ◌==◌, ◌||◌,
  if◌then◌else◌, arith, Bool-cases, inl, inr,
}
use mathlib.Core.List.{append_assoc}
use enumc.Lexer.Token.{LiteralKind, TokenKind}
use enumc.Lexer.Chars.{UnicodeXid, str_len, is_id_start, is_whitespace}
use enumc.Lexer.Cursor.{Cursor, Lex, new, nth}
use enumc.Lexer.Scan.{double_quoted_in, double_quoted_string, eat_literal_suffix}
use enumc.Lexer.Advance.{token_kind, quoted_literal, suffixed, first_token}
use enumc.Lexer.Exact.{stops, behind, first_token-exact}
use enumc.Lexer.Cover.{str_len-append}

-- The text of a string literal that stands for `s`: a backslash before quotes and backslashes.
abbrev pub escape : List ℕ → List ℕ
escape [] = []
escape (x ∷ xs) = if x == b'"' || x == b'\\' then b'\\' ∷ x ∷ escape xs else x ∷ escape xs

double_quoted_in-plain :
    (x : ℕ) (zs : List ℕ) (c : Cursor)
    → (x == b'"' || x == b'\\') ≡ false
    → double_quoted_in (x ∷ zs) c ≡ double_quoted_in zs (record c { chars = zs; prev = x })
unfolding double_quoted_in
double_quoted_in-plain x [] c h = ground arith
double_quoted_in-plain x (y ∷ zs) c h = ground arith

double_quoted_in-escaped :
    (x : ℕ) (zs : List ℕ) (c : Cursor)
    → (x == b'"' || x == b'\\') ≡ true
    → double_quoted_in (b'\\' ∷ x ∷ zs) c ≡ double_quoted_in zs (record c { chars = zs; prev = x })
unfolding double_quoted_in
double_quoted_in-escaped x zs c h = ground arith

double_quoted_in-escape :
    (s rest : List ℕ) (c : Cursor)
    → double_quoted_in (escape s ++ b'"' ∷ rest) c ≡ (true, record c { chars = rest; prev = b'"' })
unfolding double_quoted_in
double_quoted_in-escape [] [] c = refl
double_quoted_in-escape [] (x ∷ rest) c = refl
double_quoted_in-escape (x ∷ s) rest c = elim (Bool-cases (x == b'"' || x == b'\\')) [
  | inl e ↦
      rw e (
        double_quoted_in-escaped x (escape s ++ b'"' ∷ rest) c e ∙ double_quoted_in-escape s rest _)
  | inr e ↦
      rw e
        (double_quoted_in-plain x (escape s ++ b'"' ∷ rest) c e ∙ double_quoted_in-escape s rest _)
]

module _ (u : UnicodeXid) where
  pub is_id_start-nth :
      (xs : List ℕ) → stops (is_id_start u) xs ≡ true → is_id_start u (nth 0 xs) ≡ false
  unfolding is_id_start
  is_id_start-nth [] h = refl
  is_id_start-nth (x ∷ xs) h = ground arith

  pub eat_literal_suffix_none :
      (c : Cursor) → stops (is_id_start u) c.chars ≡ true → eat_literal_suffix u c ≡ (tt, c)
  unfolding eat_literal_suffix
  eat_literal_suffix_none c h = rw (is_id_start-nth c.chars h)

  pub suffixed_none :
      (complete : Bool) (kind : LiteralKind) (c : Cursor)
      → stops (is_id_start u) c.chars ≡ true
      → suffixed u complete kind c ≡ (TokenKind.literal kind (c.initial_len - str_len c.chars), c)
  unfolding suffixed
  suffixed_none true kind c h = rw (eat_literal_suffix_none c h)
  suffixed_none false kind c h = refl

  -- A quoted literal that is terminated and has no suffix.
  quoted_literal_none :
      (string : Lex Bool) (kind : Bool → LiteralKind) (c d : Cursor)
      → string c ≡ (true, d)
      → stops (is_id_start u) d.chars ≡ true
      → quoted_literal u string kind c
        ≡ (TokenKind.literal (kind true) (d.initial_len - str_len d.chars), d)
  unfolding quoted_literal
  quoted_literal_none string kind c d e h = rw e (suffixed_none true (kind true) d h)

  -- A string literal with an escaped text ends behind its closing quote, whatever the text is, and
  -- its suffix, if none stands there, starts at its end.
  pub first_token-str :
      (s rest : List ℕ)
      → stops (is_id_start u) rest ≡ true
      → first_token u (b'"' ∷ (escape s ++ b'"' ∷ []) ++ rest)
        ≡ some (record {
          kind =
              TokenKind.literal (LiteralKind.str true) (str_len (b'"' ∷ (escape s ++ b'"' ∷ [])));
          len = str_len (b'"' ∷ (escape s ++ b'"' ∷ []));
        })
  unfolding token_kind new double_quoted_string is_whitespace is_id_start
  first_token-str s rest h =
      let text = escape s ++ b'"' ∷ [] in
      let c = behind b'"' (text ++ rest) in
      let d = record c { chars = rest; prev = b'"' } in
      let read : double_quoted_string c ≡ (true, d) =
        subst (λ zs. double_quoted_in zs c ≡ (true, d))
          (sym (append_assoc (escape s) (b'"' ∷ []) rest)) (double_quoted_in-escape s rest c) in
      let kind = quoted_literal_none double_quoted_string LiteralKind.str c d read h in
      let all : str_len (b'"' ∷ text ++ rest) - str_len rest ≡ str_len (b'"' ∷ text) =
        omega (arith, str_len-append (b'"' ∷ text) rest) in
      first_token-exact u b'"' text rest
        (ap (λ r. r.0) kind ∙ ap (TokenKind.literal (LiteralKind.str true)) all)
        (ap (λ r. r.1.chars) kind)
