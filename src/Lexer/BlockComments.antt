-- ===== src/Lexer/BlockComments.antt =====
-- What the lexer makes of block comments, which nest.
use enumc.Prelude.{
  ℕ, suc, ◌+◌, ◌-◌, ◌≡◌, refl, ◌∙◌, ap, Bool, true, false, not, List, [], ◌∷◌, ◌++◌, Option, none,
  some, ◌==◌, ◌&&◌, ◌||◌, if◌then◌else◌, arith,
}
use mathlib.Core.List.{append_assoc}
use enumc.Lexer.Token.{DocStyle, outer, inner, TokenKind}
use enumc.Lexer.Chars.{UnicodeXid, str_len}
use enumc.Lexer.Cursor.{Cursor, new}
use enumc.Lexer.Scan.{block_loop, block_comment}
use enumc.Lexer.Advance.{token_kind, slash, first_token}
use enumc.Lexer.Exact.{first_token-exact}

-- `x` neither opens nor closes a comment together with the character behind it. Behind the text
-- stands `*/`.
abbrev pub solo : ℕ → List ℕ → Bool
solo x [] = not (x == b'/')
solo x (y ∷ xs) = not (x == b'/' && y == b'*') && not (x == b'*' && y == b'/')

-- The text of a comment: characters that stand for themselves, and whole comments.
pub data Nested : List ℕ → Type 0 where
  empty : Nested []
  char : (x : ℕ) {xs : List ℕ} → solo x xs ≡ true → Nested xs → Nested (x ∷ xs)
  comment :
      {text : List ℕ} (body rest : List ℕ)
      → text ≡ b'/' ∷ b'*' ∷ (body ++ b'*' ∷ b'/' ∷ rest)
      → Nested body
      → Nested rest
      → Nested text

-- The documentation style of a block comment with this text.
abbrev pub block_doc : List ℕ → Option DocStyle
block_doc [] = none
block_doc (x ∷ []) = if x == b'!' then some inner else none
block_doc (x ∷ y ∷ xs) =
    if x == b'!'
    then some inner
    else if x == b'*' && not (y == b'*' || y == b'/')
    then some outer
    else none

block_loop-solo :
    (x : ℕ) (xs after : List ℕ) (depth : ℕ) (c : Cursor)
    → solo x xs ≡ true
    → block_loop (x ∷ (xs ++ b'*' ∷ b'/' ∷ after)) depth c
      ≡ block_loop
          (xs ++ b'*' ∷ b'/' ∷ after)
          depth
          (record c { chars = xs ++ b'*' ∷ b'/' ∷ after; prev = x })
unfolding block_loop
block_loop-solo x [] after depth c h = ground arith
block_loop-solo x (y ∷ xs) after depth c h = ground arith

block_loop_open :
    (zs : List ℕ) (depth : ℕ) (c : Cursor)
    → block_loop (b'/' ∷ b'*' ∷ zs) depth c
      ≡ block_loop zs (suc depth) (record c { chars = zs; prev = b'*' })
unfolding block_loop
block_loop_open zs depth c = let e : depth + 1 ≡ suc depth = omega arith in rw e

block_loop_close :
    (zs : List ℕ) (depth : ℕ) (c : Cursor)
    → block_loop (b'*' ∷ b'/' ∷ zs) (suc (suc depth)) c
      ≡ block_loop zs (suc depth) (record c { chars = zs; prev = b'/' })
unfolding block_loop
block_loop_close zs depth c =
    let e : suc (suc depth) - 1 ≡ suc depth = omega arith in
    let more : (suc depth == 0) ≡ false = ground arith in rw e (rw more)

-- The loop gets to the end of a comment's text at the depth at which it began it.
block_loop-Nested :
    {text : List ℕ}
    → Nested text
    → (after : List ℕ) (depth : ℕ) (c : Cursor)
    → (d : Cursor) × (block_loop (text ++ b'*' ∷ b'/' ∷ after) (suc depth) c
        ≡ block_loop (b'*' ∷ b'/' ∷ after) (suc depth) d)
block_loop-Nested empty after depth c = (c, refl)
block_loop-Nested (char x {xs} h n) after depth c =
    let (d, e) = block_loop-Nested n after depth _ in
    (d, block_loop-solo x xs after (suc depth) c h ∙ e)
block_loop-Nested (comment body rest e nb nr) after depth c =
    let zs = rest ++ b'*' ∷ b'/' ∷ after in
    let opened = record c { chars = body ++ b'*' ∷ b'/' ∷ zs; prev = b'*' } in
    let (d, inside) = block_loop-Nested nb zs (suc depth) opened in
    let (d', behind_it) = block_loop-Nested nr after depth (record d { chars = zs; prev = b'/' }) in
    (
      d',
      rw (e, append_assoc body (b'*' ∷ b'/' ∷ rest) (b'*' ∷ b'/' ∷ after))
          (block_loop_open (body ++ b'*' ∷ b'/' ∷ zs) (suc depth) c
            ∙ inside
            ∙ block_loop_close zs depth d
            ∙ behind_it),
    )

block_loop_end :
    (zs : List ℕ) (c : Cursor)
    → block_loop (b'*' ∷ b'/' ∷ zs) 1 c ≡ (0, record c { chars = zs; prev = b'/' })
unfolding block_loop
block_loop_end zs c = refl

-- The cursor behind `/`, with `zs` in front of it.
abbrev at_star : ℕ → List ℕ → Cursor
at_star n zs = record { initial_len = n; chars = zs; prev = b'/' }

block_comment-doc :
    (text after : List ℕ) (n : ℕ)
    → (block_comment (at_star n (b'*' ∷ (text ++ b'*' ∷ b'/' ∷ after)))).0
      ≡ TokenKind.block_comment (block_doc text) (
          (block_loop
            (text ++ b'*' ∷ b'/' ∷ after)
            1
            (record { initial_len = n; chars = text ++ b'*' ∷ b'/' ∷ after; prev = b'*' })).0
          == 0)
unfolding block_comment
block_comment-doc [] after n = refl
block_comment-doc (x ∷ []) after n = ground arith
block_comment-doc (x ∷ y ∷ text) after n = ground arith

block_comment-Nested :
    {text : List ℕ} (after zs : List ℕ) (n : ℕ)
    → Nested text
    → zs ≡ b'*' ∷ (text ++ b'*' ∷ b'/' ∷ after)
    → ((block_comment (at_star n zs)).0 ≡ TokenKind.block_comment (block_doc text) true)
      × ((block_comment (at_star n zs)).1.chars ≡ after)
block_comment-Nested {text} after zs n nested e =
    let c : Cursor = record { initial_len = n; chars = text ++ b'*' ∷ b'/' ∷ after; prev = b'*' } in
    let (d, reached) = block_loop-Nested nested after 0 c in
    let loop = reached ∙ block_loop_end after d in
    rw e (block_comment-doc text after n ∙ rw loop, unfold block_comment in rw loop)

module _ (u : UnicodeXid) where
  -- A block comment ends at the `*/` that closes it, where the comments in its text are closed
  -- themselves. Its documentation style is `block_doc` of its text.
  pub first_token-block_comment :
      (text rest : List ℕ)
      → Nested text
      → first_token u (b'/' ∷ (b'*' ∷ (text ++ b'*' ∷ b'/' ∷ [])) ++ rest)
        ≡ some (record {
          kind = TokenKind.block_comment (block_doc text) true;
          len = str_len (b'/' ∷ b'*' ∷ (text ++ b'*' ∷ b'/' ∷ []));
        })
  unfolding token_kind slash new
  first_token-block_comment text rest n =
      let e = append_assoc text (b'*' ∷ b'/' ∷ []) rest in
      let b = block_comment-Nested rest _ _ n (ap (◌∷◌ b'*') e) in
      first_token-exact u b'/' (b'*' ∷ (text ++ b'*' ∷ b'/' ∷ [])) rest b.0 b.1
