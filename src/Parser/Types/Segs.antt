-- ===== src/Parser/Types/Segs.antt =====
-- src/ast/parse.rs: what ends a type, and how `make_seg` reads the names of a path.
use Prim.Native.String.{String}
use enumc.Prelude.{
  ℕ, zero, suc, ◌≤◌, ◌≡◌, refl, ap, ◌∙◌, Bool, true, false, not, ◌&&◌, ◌||◌, List, [], ◌∷◌, ◌++◌,
  all, length, arith,
}
use mathlib.Core.List.{append_assoc}
use enumc.Lexer.Chars.{is_whitespace}
use enumc.Lexer.Token.{TokenKind, ident, colon}
use enumc.Lexer.Match.{TokenMatch, matches}
use enumc.Parser.Stream.{
  SegStart, Parse, seg_next, codes, Tok, done, then_at, ◌>>◌, pure, is_blank, eat_if,
  eat_whitespace, zip_all, cmp_seq, without_blanks, cmp_seq_ignore_ws, eat_seq, make_ident, retain,
  colons, seg_start, seg_loop, seg_step, make_seg,
}
use enumc.Parser.Types.Print.{
  Written, name, names, pointer, sized, function, tok, print_segs, print, ends_type, ends, kept,
}

pub and-left : (a b : Bool) → (a && b) ≡ true → a ≡ true
and-left a b h = ground arith

pub and-right : (a b : Bool) → (a && b) ≡ true → b ≡ true
and-right a b h = ground arith

pub not-true : (a : Bool) → not a ≡ true → a ≡ false
not-true a h = ground arith

ends_type-blank : (k : TokenKind) → ends_type k ≡ true → is_blank k ≡ false
ends_type-blank TokenKind.whitespace h = cc
ends_type-blank (TokenKind.line_comment doc_style) h = cc
ends_type-blank (TokenKind.block_comment doc_style terminated) h = cc
ends_type-blank _ h = refl

pub ends_type-colon : (k : TokenKind) → ends_type k ≡ true → matches TokenMatch.colon k ≡ false
unfolding matches
ends_type-colon TokenKind.colon h = cc
ends_type-colon _ h = refl

pub ends_type-ident : (k : TokenKind) → ends_type k ≡ true → matches TokenMatch.ident k ≡ false
unfolding matches
ends_type-ident TokenKind.ident h = cc
ends_type-ident _ h = refl

pub ends_type-lt : (k : TokenKind) → ends_type k ≡ true → matches TokenMatch.lt k ≡ false
unfolding matches
ends_type-lt TokenKind.lt h = cc
ends_type-lt _ h = refl

pub eat_whitespace-ends : (rest : List Tok) → ends rest ≡ true → eat_whitespace rest ≡ done tt rest
unfolding eat_whitespace
eat_whitespace-ends [] h = absurd (ground arith)
eat_whitespace-ends (t ∷ rest) h = rw (ends_type-blank t.kind h) refl

pub eat_whitespace-print :
    (ty : Written) (rest : List Tok) → eat_whitespace (print ty rest) ≡ done tt (print ty rest)
unfolding eat_whitespace print
eat_whitespace-print (name text) rest = refl
eat_whitespace-print (names first segs) rest = refl
eat_whitespace-print (pointer ty) rest = refl
eat_whitespace-print (sized size ty) rest = refl
eat_whitespace-print (function params ret) rest = refl

-- The first segment
seg_start-first :
    (seg : String) (segs : List String) (rest : List Tok)
    → ends rest ≡ true
    → seg_start (tok ident seg ∷ (print_segs segs ++ rest)) ≡ SegStart.eat_colons
unfolding seg_start cmp_seq_ignore_ws without_blanks zip_all matches
seg_start-first seg [] [] h = absurd (ground arith)
seg_start-first seg [] (t ∷ rest) h =
    rw (ends_type-blank t.kind h) (rw (ends_type-colon t.kind h) refl)
seg_start-first seg (next ∷ segs) rest h = refl

seg_start-colon :
    (seg : String) (toks : List Tok)
    → seg_start (tok colon ":" ∷ tok colon ":" ∷ tok ident seg ∷ toks) ≡ SegStart.eat_colons
unfolding seg_start cmp_seq_ignore_ws without_blanks zip_all matches
seg_start-colon seg toks = refl

pub make_ident-ident :
    (seg : String) (toks : List Tok)
    → eat_whitespace toks ≡ done tt toks
    → make_ident (tok ident seg ∷ toks) ≡ done seg toks
unfolding make_ident eat_if matches eat_whitespace
make_ident-ident seg [] h = absurd (ground arith)
make_ident-ident seg (t ∷ toks) h = ap (λ p. then_at p (λ u. pure seg)) h

eat_whitespace-segs :
    (segs : List String) (rest : List Tok)
    → ends rest ≡ true
    → eat_whitespace (print_segs segs ++ rest) ≡ done tt (print_segs segs ++ rest)
unfolding eat_whitespace
eat_whitespace-segs [] rest h = eat_whitespace-ends rest h
eat_whitespace-segs (seg ∷ segs) rest h = refl

cmp_seq-ends :
    (rest : List Tok)
    → ends rest ≡ true
    → (cmp_seq colons rest || cmp_seq (TokenMatch.ident ∷ []) rest) ≡ false
unfolding cmp_seq
cmp_seq-ends [] h = absurd (ground arith)
cmp_seq-ends (t ∷ rest) h = rw (ends_type-colon t.kind h) (rw (ends_type-ident t.kind h) refl)

seg_next-stop :
    (again : List String → Parse (List String)) (ids : List String) (rest : List Tok)
    → ends rest ≡ true
    → seg_next again ids rest ≡ done ids rest
seg_next-stop again ids rest h = rw (seg_next, cmp_seq-ends rest h) refl

-- A round of the loop at a name, with the names behind it
seg_step-segs :
    (fuel : ℕ) (ids : List String) (seg : String) (segs : List String) (rest : List Tok)
    → length segs ≤ fuel
    → ends rest ≡ true
    → seg_step (seg_loop fuel) ids (tok ident seg ∷ (print_segs segs ++ rest))
      ≡ done (ids ++ seg ∷ segs) rest
unfolding seg_loop eat_seq eat_if matches cmp_seq zip_all eat_whitespace seg_start cmp_seq_ignore_ws
    without_blanks
seg_step-segs fuel ids seg [] rest le h =
    ap (λ p. then_at p (λ id. seg_next (seg_loop fuel) (ids ++ id ∷ [])))
      (make_ident-ident seg rest (eat_whitespace-ends rest h))
    ∙ seg_next-stop (seg_loop fuel) (ids ++ seg ∷ []) rest h
seg_step-segs zero ids seg (next ∷ segs) rest le h = absurd (omega arith)
seg_step-segs (suc fuel) ids seg (next ∷ segs) rest le h =
    ap (λ p. then_at p (λ id. seg_next (seg_loop (suc fuel)) (ids ++ id ∷ [])))
      (make_ident-ident seg (print_segs (next ∷ segs) ++ rest) refl)
    ∙ seg_step-segs fuel (ids ++ seg ∷ []) next segs rest (omega arith) h
    ∙ ap (λ l. done l rest) (append_assoc ids (seg ∷ []) (next ∷ segs))

retain-kept : (segs : List String) → all kept segs ≡ true → retain segs ≡ segs
unfolding retain
retain-kept [] h = refl
retain-kept (seg ∷ segs) h =
    let rest = retain-kept segs (and-right (kept seg) (all kept segs) h) in
    rw (not-true (all is_whitespace (codes seg)) (and-left (kept seg) (all kept segs) h))
      (ap (◌∷◌ seg) rest)

seg_loop-segs :
    (fuel : ℕ) (seg : String) (segs : List String) (rest : List Tok)
    → length segs ≤ fuel
    → ends rest ≡ true
    → seg_loop (suc fuel) [] (tok ident seg ∷ (print_segs segs ++ rest)) ≡ done (seg ∷ segs) rest
unfolding seg_loop eat_seq eat_if matches
seg_loop-segs fuel seg segs rest le h =
    rw (seg_loop, seg_start-first seg segs rest h) (seg_step-segs fuel [] seg segs rest le h)

pub make_seg-segs :
    (fuel : ℕ) (seg : String) (segs : List String) (rest : List Tok)
    → suc (length segs) ≤ fuel
    → all kept (seg ∷ segs) ≡ true
    → ends rest ≡ true
    → make_seg fuel (tok ident seg ∷ (print_segs segs ++ rest)) ≡ done (seg ∷ segs) rest
unfolding make_seg
make_seg-segs zero seg segs rest le k h = absurd (omega arith)
make_seg-segs (suc fuel) seg segs rest le k h =
    ap (λ p. then_at p (λ ids. eat_whitespace >> pure (retain ids)))
      (seg_loop-segs fuel seg segs rest (omega arith) h)
    ∙ ap (λ p. then_at p (λ u. pure (retain (seg ∷ segs)))) (eat_whitespace-ends rest h)
    ∙ ap (λ l. done l rest) (retain-kept (seg ∷ segs) k)
