-- ===== src/Lexer/Cover.antt =====
-- `tokenize`: it ends without a panic, and its tokens cover the input.
use enumc.Prelude.{
  ℕ, zero, suc, ◌+◌, ◌-◌, ◌≤◌, ◌≡◌, ◌≢◌, refl, ap, List, [], ◌∷◌, ◌++◌, some, arith, length,
}
use mathlib.Core.List.{cons-ne-nil}
use enumc.Lexer.Token.{Token}
use enumc.Lexer.Chars.{UnicodeXid, str_len, slice_from}
use enumc.Lexer.Cursor.{new, bump}
use enumc.Lexer.Advance.{token_kind, advance_token, first_token, tokenize}
use enumc.Lexer.Forward.{Suffix, whole, later}
use enumc.Lexer.Forward.Token.{token_kind-Forward}
use enumc.Lexer.Slices.{Suffix-length, slice_from-Suffix}

-- Each token's length is that of a text of at least one character, and these texts, in order, are
-- the input.
pub data Covers : List Token → List ℕ → Type 0 where
  done : Covers [] []
  token :
      {t : Token} {ts : List Token} {text rest input : List ℕ}
      → t.len ≡ str_len text
      → text ≢ []
      → input ≡ text ++ rest
      → Covers ts rest
      → Covers (t ∷ ts) input

pub str_len-append : (s t : List ℕ) → str_len (s ++ t) ≡ str_len s + str_len t
unfolding str_len
str_len-append [] t = omega arith
str_len-append (c ∷ s) t = omega (arith, str_len-append s t)

-- What stands in front of a suffix.
Suffix-split : {ys xs : List ℕ} → Suffix ys xs → (text : List ℕ) × (xs ≡ text ++ ys)
Suffix-split whole = ([], refl)
Suffix-split (later {x = x} s) = let (text, e) = Suffix-split s in (x ∷ text, ap (◌∷◌ x) e)

-- The first token of a text with a character ends behind that character, and has the length of
-- what it takes.
record FirstToken (x : ℕ) (xs : List ℕ) (t : Token) : Type 0 where
  rest : List ℕ
  shorter : Suffix rest xs
  is_len : t.len ≡ str_len (x ∷ xs) - str_len rest

FirstToken-slice :
    (x : ℕ) (xs : List ℕ) {t : Token} (f : FirstToken x xs t)
    → slice_from t.len (x ∷ xs) ≡ some f.rest
FirstToken-slice x xs f = rw f.is_len (slice_from-Suffix (later f.shorter))

FirstToken-Covers :
    (x : ℕ) (xs : List ℕ) {t : Token} {ts : List Token} (f : FirstToken x xs t)
    → Covers ts f.rest
    → Covers (t ∷ ts) (x ∷ xs)
FirstToken-Covers x xs f covers =
    let (text, e) = Suffix-split f.shorter in
    let whole_text : x ∷ xs ≡ (x ∷ text) ++ f.rest = ap (◌∷◌ x) e in
    token (rw f.is_len (rw whole_text (omega (arith, str_len-append (x ∷ text) f.rest))))
      (cons-ne-nil x text) whole_text covers

module _ (u : UnicodeXid) where
  first_token-FirstToken :
      (x : ℕ) (xs : List ℕ) → (t : Token) × (first_token u (x ∷ xs) ≡ some t) × FirstToken x xs t
  unfolding first_token advance_token new
  first_token-FirstToken x xs =
      let start = (bump (new (x ∷ xs))).1 in
      let end = (token_kind u x start).1 in
      let f = token_kind-Forward u x start in
      (_, refl, record { rest = end.chars; shorter = f.suffix; is_len = rw f.len_kept })

  -- `tokenize` neither panics nor runs out of fuel, if there is as much as there are characters:
  -- it returns tokens, none of which is empty and whose texts, one behind the other, are the input.
  pub tokenize-Covers :
      (fuel : ℕ) (input : List ℕ)
      → length input ≤ fuel
      → (ts : List Token) × (tokenize u fuel input ≡ some ts) × Covers ts input
  unfolding tokenize
  tokenize-Covers zero [] h = ([], refl, done)
  tokenize-Covers (suc fuel) [] h = ([], refl, done)
  tokenize-Covers zero (x ∷ xs) h = absurd (omega arith)
  tokenize-Covers (suc fuel) (x ∷ xs) h =
      let (t, is_first, f) = first_token-FirstToken x xs in
      let (ts, later_tokens, covers) =
        tokenize-Covers fuel f.rest (omega (arith, Suffix-length f.shorter)) in
      (
        t ∷ ts,
        rw (is_first, tokenize) (rw (FirstToken-slice x xs f) (rw later_tokens)),
        FirstToken-Covers x xs f covers,
      )
