-- ===== src/Lexer/Slices.antt =====
-- Lengths in bytes and slices at character boundaries.
use enumc.Prelude.{
  ℕ, suc, ◌+◌, ◌-◌, ◌≤◌, ◌<◌, ◌≡◌, refl, ◌∙◌, true, List, [], ◌∷◌, some, leb, arith, length,
}
use enumc.Lexer.Chars.{len_utf8, str_len, slice_from}
use enumc.Lexer.Forward.{Suffix, whole, later}

pub len_utf8_pos : (c : ℕ) → 0 < len_utf8 c
unfolding len_utf8
len_utf8_pos c = ground arith

-- A text has at least as many bytes as characters.
pub length-le-str_len : (s : List ℕ) → length s ≤ str_len s
unfolding str_len
length-le-str_len [] = omega arith
length-le-str_len (c ∷ cs) = omega (arith, length-le-str_len cs, len_utf8_pos c)

pub Suffix-str_len : {ys xs : List ℕ} → Suffix ys xs → str_len ys ≤ str_len xs
unfolding str_len
Suffix-str_len whole = omega arith
Suffix-str_len (later s) = omega (arith, Suffix-str_len s)

pub Suffix-length : {ys xs : List ℕ} → Suffix ys xs → length ys ≤ length xs
Suffix-length whole = omega arith
Suffix-length (later s) = omega (arith, Suffix-length s)

slice_from-add : (c n : ℕ) (cs : List ℕ) → slice_from (len_utf8 c + n) (c ∷ cs) ≡ slice_from n cs
unfolding slice_from
slice_from-add c n cs =
    let pos = len_utf8_pos c in
    let e : len_utf8 c + n ≡ suc (len_utf8 c + n - 1) = omega arith in
    let inside : leb (len_utf8 c) (suc (len_utf8 c + n - 1)) ≡ true = ground arith in
    let rest : suc (len_utf8 c + n - 1) - len_utf8 c ≡ n = omega arith in rw e (rw inside (rw rest))

slice_from-zero : (s : List ℕ) → slice_from 0 s ≡ some s
unfolding slice_from
slice_from-zero s = refl

-- The bytes in front of a suffix end at a character boundary, and behind them is the suffix.
pub slice_from-Suffix :
    {ys xs : List ℕ} → Suffix ys xs → slice_from (str_len xs - str_len ys) xs ≡ some ys
unfolding str_len
slice_from-Suffix (whole {xs}) =
    let e : str_len xs - str_len xs ≡ 0 = omega arith in rw e (slice_from-zero xs)
slice_from-Suffix {ys} (later {xs} {x} s) =
    let e : len_utf8 x + str_len xs - str_len ys ≡ len_utf8 x + (str_len xs - str_len ys) =
      omega (arith, Suffix-str_len s) in
    rw e (slice_from-add x _ xs ∙ slice_from-Suffix s)
