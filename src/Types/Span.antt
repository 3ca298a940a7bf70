-- ===== src/Types/Span.antt =====
-- src/ast/types.rs: `Range`, a span of bytes in a file, with its derived order.
use enumc.Prelude.{ℕ, ◌≡◌, Bool, true, false, ◌&&◌, ◌||◌, ltb, leb, ◌==◌, arith}

pub record Range : Type 0 where
  pub start : ℕ
  pub end : ℕ
  pub file_id : ℕ

unfoldable pub to_rng : ℕ → ℕ → ℕ → Range
to_rng start end file_id = record { start = start; end = end; file_id = file_id }

-- By the fields in order.
unfoldable pub le_range : Range → Range → Bool
le_range a b =
    ltb a.start b.start
    || (a.start == b.start && (ltb a.end b.end || (a.end == b.end && leb a.file_id b.file_id)))

pub le_range_total : (a b : Range) → le_range a b ≡ false → le_range b a ≡ true
unfolding le_range
le_range_total a b h = ground arith

pub le_range_trans :
    (a b c : Range) → le_range a b ≡ true → le_range b c ≡ true → le_range a c ≡ true
unfolding le_range
le_range_trans a b c h k = ground arith
