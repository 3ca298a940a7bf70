-- ===== src/Lexer/Chars.antt =====
-- The character classes of src/ast/lex.rs, and the UTF-8 lengths by which a `str` is measured and
-- sliced. A text is the list of its characters' code points.
use enumc.Prelude.{
  ℕ, zero, suc, ◌+◌, ◌-◌, ◌||◌, ◌&&◌, Bool, false, List, [], ◌∷◌, Option, none, some, ltb, leb,
  ◌==◌, within, if◌then◌else◌, all,
}

-- The crate `unicode_xid`, which is not part of the repository.
pub record UnicodeXid : Type 0 where
  pub is_xid_start : ℕ → Bool
  pub is_xid_continue : ℕ → Bool

-- `char::len_utf8`
unfoldable pub len_utf8 : ℕ → ℕ
len_utf8 c = if ltb c 0x80 then 1 else if ltb c 0x800 then 2 else if ltb c 0x10000 then 3 else 4

-- `str::len`
unfoldable pub str_len : List ℕ → ℕ
str_len [] = 0
str_len (c ∷ cs) = len_utf8 c + str_len cs

-- `&input[n..]`, where `none` is the panic: `n` is past the end, or inside a character.
unfoldable pub slice_from : ℕ → List ℕ → Option (List ℕ)
slice_from zero s = some s
slice_from (suc n) [] = none
slice_from (suc n) (c ∷ cs) =
    let rest = slice_from (suc n - len_utf8 c) cs in if leb (len_utf8 c) (suc n) then rest else none

unfoldable pub is_whitespace : ℕ → Bool
is_whitespace c =
    c == 0x9
    || c == 0xA
    || c == 0xB
    || c == 0xC
    || c == 0xD
    || c == 0x20
    || c == 0x85
    || c == 0x200E
    || c == 0x200F
    || c == 0x2028
    || c == 0x2029

module _ (u : UnicodeXid) where
  unfoldable pub is_id_start : ℕ → Bool
  is_id_start c =
      within b'a' b'z' c || within b'A' b'Z' c || c == b'_' || (ltb 0x7f c && u.is_xid_start c)

  unfoldable pub is_id_continue : ℕ → Bool
  is_id_continue c =
      within b'a' b'z' c
      || within b'A' b'Z' c
      || within b'0' b'9' c
      || c == b'_'
      || (ltb 0x7f c && u.is_xid_continue c)

  unfoldable pub is_ident : List ℕ → Bool
  is_ident [] = false
  is_ident (start ∷ chars) = is_id_start start && all is_id_continue chars
