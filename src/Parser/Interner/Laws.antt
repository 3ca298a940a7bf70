-- ===== src/Parser/Interner/Laws.antt =====
-- Names and numbers of an `Interner` correspond, and interning keeps that.
use enumc.Prelude.{
  ℕ, zero, suc, ◌%◌, ◌^◌, ◌<◌, ◌≡◌, ◌⊎◌, inl, inr, refl, sym, ap, ap₂, subst, ◌∙◌, true, false,
  List, [], ◌∷◌, ◌++◌, Option, none, some, if◌then◌else◌, length, arith, Bool-cases, Option-cases,
  ==_refl,
}
use enumc.Data.Block.{lookup, lookup-++}
use enumc.Parser.Interner.{Name, same, find, insert, Interner, intern, lookup_tkn, lookup_str}

same_self : (a : Name) → same a a ≡ true
unfolding same
same_self [] = refl
same_self (x ∷ a) = rw (==_refl x) (same_self a)

same_equal : (a b : Name) → same a b ≡ true → a ≡ b
unfolding same
same_equal [] [] h = refl
same_equal [] (y ∷ b) h = cc
same_equal (x ∷ a) [] h = cc
same_equal (x ∷ a) (y ∷ b) h =
    let heads : x ≡ y = ground arith in
    let tails : same a b ≡ true = ground arith in ap₂ ◌∷◌ heads (same_equal a b tails)

find-insert :
    (name : Name) (id : ℕ) (map : List (Name × ℕ)) → find name (insert name id map) ≡ some id
unfolding find insert
find-insert name id [] = rw (same_self name) refl
find-insert name id ((key, old) ∷ map) = elim (Bool-cases (same key name)) [
  | inl h ↦ rw (h, same_self name) refl
  | inr h ↦ rw (h, h) (find-insert name id map)
]

find-insert_other :
    (name other : Name) (id : ℕ) (map : List (Name × ℕ))
    → same name other ≡ false
    → find other (insert name id map) ≡ find other map
unfolding find insert
find-insert_other name other id [] h = rw h refl
find-insert_other name other id ((key, old) ∷ map) h = elim (Bool-cases (same key name)) [
  | inl e ↦
      let apart = subst (λ k. same k other ≡ false) (sym (same_equal key name e)) h in
      rw (e, h, apart) refl
  | inr e ↦
      rw e
        (ap (λ o. if same key other then some old else o) (find-insert_other name other id map h))
]

length-insert :
    (name : Name) (id : ℕ) (map : List (Name × ℕ))
    → find name map ≡ none
    → length (insert name id map) ≡ suc (length map)
unfolding find insert
length-insert name id [] h = refl
length-insert name id ((key, old) ∷ map) h = elim (Bool-cases (same key name)) [
  | inl e ↦ let found = subst (λ b. (if b then some old else find name map) ≡ none) e h in cc
  | inr e ↦
      let later = subst (λ b. (if b then some old else find name map) ≡ none) e h in
      rw e (ap suc (length-insert name id map later))
]

lookup_old :
    (vec : List Name) (name n : Name) (i : ℕ)
    → lookup i vec ≡ some n
    → lookup i (vec ++ name ∷ []) ≡ some n
lookup_old [] name n i h = cc
lookup_old (x ∷ vec) name n zero h = h
lookup_old (x ∷ vec) name n (suc i) h = lookup_old vec name n i h

lookup_cases :
    (vec : List Name) (name n : Name) (i : ℕ)
    → lookup i (vec ++ name ∷ []) ≡ some n
    → (lookup i vec ≡ some n) ⊎ ((i ≡ length vec) × (name ≡ n))
lookup_cases [] name n zero h = inr (refl, cc)
lookup_cases [] name n (suc i) h = cc
lookup_cases (x ∷ vec) name n zero h = inl h
lookup_cases (x ∷ vec) name n (suc i) h = elim (lookup_cases vec name n i h) [
  | inl e ↦ inl e
  | inr e ↦ inr (ap suc e.0, e.1)
]

lookup-length : (vec : List Name) (n : Name) (i : ℕ) → lookup i vec ≡ some n → i < length vec
lookup-length [] n i h = cc
lookup-length (x ∷ vec) n zero h = omega arith
lookup-length (x ∷ vec) n (suc i) h = omega (arith, lookup-length vec n i h)

-- The map holds a name under a number exactly if the name stands there in the list.
pub record IsPaired (s : Interner) : Type 0 where
  pub is_named : (n : Name) (i : ℕ) → lookup_tkn s n ≡ some i → lookup_str s i ≡ some n
  pub is_numbered : (n : Name) (i : ℕ) → lookup_str s i ≡ some n → lookup_tkn s n ≡ some i
  pub is_long : length s.map ≡ length s.vec

abbrev named : List Name → Option ℕ → Option Name
named vec none = none
named vec (some i) = lookup i vec

length_last : (vec : List Name) (name : Name) → length (vec ++ name ∷ []) ≡ suc (length vec)
length_last [] name = refl
length_last (x ∷ vec) name = ap suc (length_last vec name)

abbrev extended : Interner → Name → Interner
extended s name = record {
  map = insert name (length s.map % 2 ^ 32) s.map;
  vec = s.vec ++ name ∷ [];
}

small : (n : ℕ) → n < 2 ^ 32 → n % 2 ^ 32 ≡ n
small n h = omega arith

extended-IsPaired :
    (s : Interner) (name : Name)
    → IsPaired s
    → length s.vec < 2 ^ 32
    → find name s.map ≡ none
    → IsPaired (extended s name)
unfolding lookup_tkn lookup_str
extended-IsPaired s name p h new =
    let id : length s.map % 2 ^ 32 ≡ length s.vec =
      ap (λ n. n % 2 ^ 32) p.is_long ∙ small (length s.vec) h in
    record {
      is_named = λ n i e. elim (Bool-cases (same name n)) [
        | inl h ↦
            let key = same_equal name n h in
            let map = insert name (length s.map % 2 ^ 32) s.map in
            let number = sym (find-insert name _ s.map) ∙ ap (λ k. find k map) key ∙ e in
            ap (named (s.vec ++ name ∷ [])) (sym number)
            ∙ ap (λ j. lookup j (s.vec ++ name ∷ [])) id
            ∙ lookup-++ s.vec name
            ∙ ap some key
        | inr h ↦
            lookup_old s.vec name n i
              (p.is_named n i (sym (find-insert_other name n _ s.map h) ∙ e))
      ];
      is_numbered = λ n i e. elim (lookup_cases s.vec name n i e) [
        | inl old ↦
            let found = p.is_numbered n i old in
            elim (Bool-cases (same name n)) [
              | inl h ↦
                  let impossible : none ≡ some i =
                    sym new ∙ ap (λ k. find k s.map) (same_equal name n h) ∙ found in
                  cc
              | inr h ↦ find-insert_other name n _ s.map h ∙ found
            ]
        | inr last ↦
            let map = insert name (length s.map % 2 ^ 32) s.map in
            ap (λ k. find k map) (sym last.1) ∙ find-insert name _ s.map ∙ ap some (id ∙ sym last.0)
      ];
      is_long = length-insert name _ s.map new ∙ ap suc p.is_long ∙ sym (length_last s.vec name);
    }

-- What a call of `intern` promises: the name has the returned number, the numbers of other names are
-- kept, and names and numbers correspond as before.
pub record Interned (s : Interner) (name : Name) (r : ℕ × Interner) : Type 0 where
  pub has_number : lookup_tkn r.1 name ≡ some r.0
  pub has_name : lookup_str r.1 r.0 ≡ some name
  pub keeps : (n : Name) (i : ℕ) → lookup_str s i ≡ some n → lookup_str r.1 i ≡ some n
  pub is_paired : IsPaired r.1

intern_new :
    (s : Interner) (name : Name)
    → find name s.map ≡ none
    → intern s name ≡ (length s.map % 2 ^ 32, extended s name)
unfolding intern
intern_new s name new = rw (new, intern) refl

intern_old :
    (s : Interner) (name : Name) (i : ℕ) → find name s.map ≡ some i → intern s name ≡ (i, s)
unfolding intern
intern_old s name i old = rw (old, intern) refl

new-Interned :
    (s : Interner) (name : Name)
    → IsPaired s
    → IsPaired (extended s name)
    → Interned s name (length s.map % 2 ^ 32, extended s name)
unfolding lookup_tkn lookup_str
new-Interned s name p q =
    let number = find-insert name (length s.map % 2 ^ 32) s.map in
    record {
      has_number = number;
      has_name = q.is_named name _ number;
      keeps = λ n i e. lookup_old s.vec name n i e;
      is_paired = q;
    }

old-Interned :
    (s : Interner) (name : Name) (i : ℕ)
    → IsPaired s
    → lookup_tkn s name ≡ some i
    → Interned s name (i, s)
old-Interned s name i p old = record {
  has_number = old;
  has_name = p.is_named name i old;
  keeps = λ n i e. e;
  is_paired = p;
}

-- Below 2 ^ 32 names, `intern` keeps what `Interned` says, whether or not it has seen the name.
pub intern-Interned :
    (s : Interner) (name : Name)
    → IsPaired s
    → length s.vec < 2 ^ 32
    → Interned s name (intern s name)
unfolding lookup_tkn
intern-Interned s name p h = elim (Option-cases (find name s.map)) [
  | inl new ↦
      subst (Interned s name) (sym (intern_new s name new))
        (new-Interned s name p (extended-IsPaired s name p h new))
  | inr (i, old) ↦
      subst (Interned s name) (sym (intern_old s name i old)) (old-Interned s name i p old)
]
