-- ===== src/Lexer/RawStrings.antt =====
-- What the lexer makes of raw strings.
use enumc.Prelude.{
  ℕ, zero, suc, ◌+◌, ◌-◌, ◌^◌, ◌<◌, ◌≡◌, refl, sym, subst, ap, ap₂, ◌∙◌, Bool, true, false, not,
  List, [], ◌∷◌, ◌++◌, Option, none, some, ◌==◌, ◌&&◌, ==_refl, ltb, arith, all, replicate, length,
}
use mathlib.Core.List.{append_assoc}
use enumc.Lexer.Token.{LiteralKind, TokenKind, RawStrError}
use enumc.Lexer.Chars.{UnicodeXid, str_len, is_id_start, is_whitespace}
use enumc.Lexer.Cursor.{Cursor, new, bump, bump_in, is_empty, len_consumed}
use enumc.Lexer.Scan.{eat_while}
use enumc.Lexer.RawString.{
  Opened, eat_opening_in, eat_opening_hashes, eat_closing_in, eat_closing_hashes, raw_loop,
  raw_contents, raw_starter, returned, raw_string_unvalidated, validated, raw_double_quoted_string,
}
use enumc.Lexer.Advance.{token_kind, after_r, raw_literal, first_token}
use enumc.Lexer.Exact.{stops, behind, first_token-exact, eat_while-exact}
use enumc.Lexer.Strings.{suffixed_none}
use enumc.Lexer.Cover.{str_len-append}
use enumc.Lexer.Forward.Literals.{raw_double_quoted_string-Forward}

abbrev pub hashes : ℕ → List ℕ
hashes n = replicate n b'#'

abbrev pub no_quote : ℕ → Bool
no_quote x = not (x == b'"')

opening :
    (n eaten : ℕ) (rest : List ℕ) (c : Cursor)
    → c.chars ≡ hashes n ++ b'"' ∷ rest
    → ((eat_opening_in (hashes n ++ b'"' ∷ rest) eaten c).0 ≡ eaten + n)
      × ((eat_opening_in (hashes n ++ b'"' ∷ rest) eaten c).1.chars ≡ b'"' ∷ rest)
unfolding eat_opening_in
opening zero eaten rest c e = (omega arith, e)
opening (suc n) eaten rest c e =
    let later =
      opening n (eaten + 1) rest (record c { chars = hashes n ++ b'"' ∷ rest; prev = b'#' }) refl in
    (later.0 ∙ omega arith, later.1)

closing :
    (k n j : ℕ) (rest : List ℕ) (c : Cursor)
    → c.chars ≡ hashes k ++ rest
    → j + k ≡ n
    → ((eat_closing_in (hashes k ++ rest) n j c).0 ≡ n)
      × ((eat_closing_in (hashes k ++ rest) n j c).1.chars ≡ rest)
unfolding eat_closing_in
closing zero n j [] c e h = (omega arith, e)
closing zero n j (x ∷ rest) c e h =
    let stop : (x == b'#' && ltb j n) ≡ false = ground arith in rw stop (omega arith, e)
closing (suc k) n j rest c e h =
    let more : ltb j n ≡ true = ground arith in
    let later =
      closing k n (j + 1) rest (record c { chars = hashes k ++ rest; prev = b'#' }) refl
        (omega arith) in
    rw more later

bump-taken :
    (c : Cursor) (x : ℕ) (xs : List ℕ)
    → c.chars ≡ x ∷ xs
    → bump c ≡ (some x, record c { chars = xs; prev = x })
bump-taken c x xs e =
    subst (λ zs. bump_in zs c ≡ (some x, record c { chars = xs; prev = x })) (sym e) refl

closing_hashes :
    (n : ℕ) (rest : List ℕ) (c : Cursor)
    → c.chars ≡ hashes n ++ rest
    → ((eat_closing_hashes n c).0 ≡ n) × ((eat_closing_hashes n c).1.chars ≡ rest)
unfolding eat_closing_hashes
closing_hashes n rest c e =
    subst (λ zs. ((eat_closing_in zs n 0 c).0 ≡ n) × ((eat_closing_in zs n 0 c).1.chars ≡ rest))
      (sym e) (closing n n 0 rest c e (omega arith))

opening_hashes :
    (n : ℕ) (rest : List ℕ) (c : Cursor)
    → c.chars ≡ hashes n ++ b'"' ∷ rest
    → ((eat_opening_hashes c).0 ≡ n) × ((eat_opening_hashes c).1.chars ≡ b'"' ∷ rest)
unfolding eat_opening_hashes
opening_hashes n rest c e =
    let o = opening n 0 rest c e in
    subst (λ zs. ((eat_opening_in zs 0 c).0 ≡ n) × ((eat_opening_in zs 0 c).1.chars ≡ b'"' ∷ rest))
      (sym e) (o.0 ∙ omega arith, o.1)

round :
    (fuel : ℕ) (o : Opened) (offset : Option ℕ) (most : ℕ) (body rest : List ℕ) (c : Cursor)
    → c.chars ≡ body ++ (b'"' ∷ hashes o.n_start_hashes ++ rest)
    → all no_quote body ≡ true
    → ((raw_loop (suc fuel) o offset most c).0 ≡ some (o.n_start_hashes, none))
      × ((raw_loop (suc fuel) o offset most c).1.chars ≡ rest)
unfolding raw_loop
round fuel o offset most body rest c e h =
    let n = o.n_start_hashes in
    let at_quote = (eat_while no_quote c).1 in
    let quote : at_quote.chars ≡ b'"' ∷ hashes n ++ rest =
      eat_while-exact no_quote body (b'"' ∷ hashes n ++ rest) c e h refl in
    let some_left : is_empty at_quote.chars ≡ false = ap is_empty quote in
    let taken = bump-taken at_quote b'"' (hashes n ++ rest) quote in
    let closed = closing_hashes n rest (bump at_quote).1 (ap (λ r. r.1.chars) taken) in
    let all_closed : ((eat_closing_hashes n (bump at_quote).1).0 == n) ≡ true =
      ap (λ k. k == n) closed.0 ∙ ==_refl n in
    rw (some_left, all_closed) (refl, closed.1)

starter :
    (o : Opened) (n : ℕ) (body rest : List ℕ) (c : Cursor)
    → o.n_start_hashes ≡ n
    → c.chars ≡ body ++ (b'"' ∷ hashes n ++ rest)
    → all no_quote body ≡ true
    → ((raw_starter o (some b'"') c).0 ≡ (n, none)) × ((raw_starter o (some b'"') c).1.chars ≡ rest)
unfolding raw_starter raw_contents
starter o n body rest c same e h =
    let text = subst (λ k. c.chars ≡ body ++ (b'"' ∷ hashes k ++ rest)) (sym same) e in
    let r = round (length c.chars) o none 0 body rest c text h in
    (ap (returned o.n_start_hashes) r.0 ∙ ap (λ k. (k, none)) same, r.1)

unvalidated :
    (p n : ℕ) (body rest : List ℕ) (c : Cursor)
    → c.chars ≡ hashes n ++ b'"' ∷ (body ++ (b'"' ∷ hashes n ++ rest))
    → all no_quote body ≡ true
    → ((raw_string_unvalidated p c).0 ≡ (n, none)) × ((raw_string_unvalidated p c).1.chars ≡ rest)
unfolding raw_string_unvalidated
unvalidated p n body rest c e h =
    let opened = opening_hashes n (body ++ (b'"' ∷ hashes n ++ rest)) c e in
    let d = (eat_opening_hashes c).1 in
    let o : Opened = record {
      prefix_len = p;
      start_pos = (len_consumed c).0;
      n_start_hashes = (eat_opening_hashes c).0;
    } in
    let inside = body ++ (b'"' ∷ hashes n ++ rest) in
    subst
      (λ (b : Option ℕ × Cursor).
        ((raw_starter o b.0 b.1).0 ≡ (n, none)) × ((raw_starter o b.0 b.1).1.chars ≡ rest))
      (sym (bump-taken d b'"' inside opened.1))
      (starter o n body rest (record d { chars = inside; prev = b'"' }) opened.0 refl h)

contents :
    (p n : ℕ) (body rest : List ℕ) (c : Cursor)
    → c.chars ≡ hashes n ++ b'"' ∷ (body ++ (b'"' ∷ hashes n ++ rest))
    → all no_quote body ≡ true
    → n < 2 ^ 16
    → ((raw_double_quoted_string p c).0 ≡ (n, none))
      × ((raw_double_quoted_string p c).1.chars ≡ rest)
unfolding raw_double_quoted_string validated
contents p n body rest c e h small =
    let few : ltb n (2 ^ 16) ≡ true = ground arith in
    let r = unvalidated p n body rest c e h in (ap validated r.0 ∙ rw few refl, r.1)

module _ (u : UnicodeXid) where
  after_r-raw :
      (n : ℕ) (rest : List ℕ) (c : Cursor)
      → c.chars ≡ hashes n ++ b'"' ∷ rest
      → after_r u c ≡ raw_literal u 1 LiteralKind.raw_str c
  unfolding after_r is_id_start
  after_r-raw zero rest c e = rw e
  after_r-raw (suc zero) rest c e = rw e
  after_r-raw (suc (suc n)) rest c e = rw e

  raw_literal_none :
      (p n : ℕ) (kind : ℕ → Option RawStrError → LiteralKind) (c : Cursor)
      → (raw_double_quoted_string p c).0 ≡ (n, none)
      → stops (is_id_start u) (raw_double_quoted_string p c).1.chars ≡ true
      → raw_literal u p kind c ≡ (
        TokenKind.literal (kind n none) (
            (raw_double_quoted_string p c).1.initial_len
            - str_len (raw_double_quoted_string p c).1.chars),
        (raw_double_quoted_string p c).1,
      )
  unfolding raw_literal
  raw_literal_none p n kind c e h = rw e (suffixed_none u true (kind n none) _ h)

  -- A raw string with fewer than 65536 `#`s and no quote in its text ends behind as many `#`s as it
  -- began with, whatever follows them but a suffix.
  pub first_token-raw_str :
      (n : ℕ) (body rest : List ℕ)
      → all no_quote body ≡ true
      → n < 2 ^ 16
      → stops (is_id_start u) rest ≡ true
      → first_token u (b'r' ∷ (hashes n ++ b'"' ∷ (body ++ (b'"' ∷ hashes n))) ++ rest)
        ≡ some (record {
          kind =
              TokenKind.literal
                (LiteralKind.raw_str n none)
                (str_len (b'r' ∷ (hashes n ++ b'"' ∷ (body ++ (b'"' ∷ hashes n)))));
          len = str_len (b'r' ∷ (hashes n ++ b'"' ∷ (body ++ (b'"' ∷ hashes n))));
        })
  unfolding token_kind new is_whitespace
  first_token-raw_str n body rest h small s =
      let text = hashes n ++ b'"' ∷ (body ++ (b'"' ∷ hashes n)) in
      let c = behind b'r' (text ++ rest) in
      let e : text ++ rest ≡ hashes n ++ b'"' ∷ (body ++ (b'"' ∷ hashes n ++ rest)) =
        simp append_assoc in
      let r = contents 1 n body rest c e h small in
      let f = raw_double_quoted_string-Forward 1 c in
      let literal =
        after_r-raw n (body ++ (b'"' ∷ hashes n ++ rest)) c e
        ∙ raw_literal_none 1 n LiteralKind.raw_str c r.0 (ap (stops (is_id_start u)) r.1 ∙ s) in
      let all_text : str_len (b'r' ∷ text ++ rest) - str_len rest ≡ str_len (b'r' ∷ text) =
        omega (arith, str_len-append (b'r' ∷ text) rest) in
      first_token-exact u b'r' text rest
        (ap (λ (t : TokenKind × Cursor). t.0) literal
          ∙ ap (TokenKind.literal (LiteralKind.raw_str n none))
              (ap₂ (λ a b. a - str_len b) f.len_kept r.1 ∙ all_text))
        (ap (λ (t : TokenKind × Cursor). t.1.chars) literal ∙ r.1)
