-- ===== src/Lexer/Forward.antt =====
-- The methods of `Cursor` only take characters from the front of the input: `Forward c c'` says that
-- `c'` is the cursor `c` after some of its characters, possibly none, are taken.
pub mod Scan
pub mod Literals
pub mod Token
use enumc.Prelude.{ℕ, ◌≡◌, refl, ◌∙◌, Bool, true, false, List, [], ◌∷◌, if◌then◌else◌}
use enumc.Lexer.Cursor.{Cursor, Lex, bump, bump_in}

-- The first list is a suffix of the second.
pub data Suffix : List ℕ → List ℕ → Type 0 where
  whole : {xs : List ℕ} → Suffix xs xs
  later : {ys xs : List ℕ} {x : ℕ} → Suffix ys xs → Suffix ys (x ∷ xs)

pub Suffix-trans : {xs ys zs : List ℕ} → Suffix xs ys → Suffix ys zs → Suffix xs zs
Suffix-trans s whole = s
Suffix-trans s (later t) = later (Suffix-trans s t)

pub record Forward (c c' : Cursor) : Type 0 where
  pub suffix : Suffix c'.chars c.chars
  pub len_kept : c'.initial_len ≡ c.initial_len

pub Forward-refl : (c : Cursor) → Forward c c
Forward-refl c = record { suffix = whole; len_kept = refl }

pub Forward-trans : {c d e : Cursor} → Forward c d → Forward d e → Forward c e
Forward-trans f g = record {
  suffix = Suffix-trans g.suffix f.suffix;
  len_kept = g.len_kept ∙ f.len_kept;
}

-- One character taken, or two.
pub take-Forward :
    (c : Cursor) (x : ℕ) (xs : List ℕ)
    → c.chars ≡ x ∷ xs
    → Forward c (record c { chars = xs; prev = x })
take-Forward c x xs e = record { suffix = rw e (later whole); len_kept = refl }

pub take_two-Forward :
    (c : Cursor) (x y : ℕ) (xs : List ℕ)
    → c.chars ≡ x ∷ y ∷ xs
    → Forward c (record c { chars = xs; prev = y })
take_two-Forward c x y xs e = record { suffix = rw e (later (later whole)); len_kept = refl }

-- The two branches of a loop's test.
pub if-Forward :
    {c d e : Cursor} (b : Bool) → Forward c d → Forward c e → Forward c (if b then d else e)
if-Forward true p q = p
if-Forward false p q = q

pub if-Forward_result :
    {A : Type 0} {c : Cursor} (b : Bool) (r s : A × Cursor)
    → Forward c r.1
    → Forward c s.1
    → Forward c (if b then r else s).1
if-Forward_result true r s p q = p
if-Forward_result false r s p q = q

-- The two branches of a test between methods.
pub if-Forward_method :
    {A : Type 0} {c : Cursor} (b : Bool) (m n : Lex A) (d : Cursor)
    → Forward c (m d).1
    → Forward c (n d).1
    → Forward c ((if b then m else n) d).1
if-Forward_method true m n d p q = p
if-Forward_method false m n d p q = q

bump_in-Forward : (xs : List ℕ) (c : Cursor) → c.chars ≡ xs → Forward c (bump_in xs c).1
bump_in-Forward [] c e = Forward-refl c
bump_in-Forward (x ∷ xs) c e = take-Forward c x xs e

pub bump-Forward : (c : Cursor) → Forward c (bump c).1
bump-Forward c = bump_in-Forward c.chars c refl
